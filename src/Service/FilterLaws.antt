-- ===== src/Service/FilterLaws.antt =====
-- Which flows the packet filter names.
use tailcat_quic.Base.{
  ltb, length, any, lookup, ℕ, ◌≤◌, ◌≡◌, refl, sym, ap, ◌∙◌, Bool, true, false, ◌&&◌, ◌||◌, Option,
  none, some, List, [], ◌∷◌, ◌++◌, map, arith, nat_eq,
}
use tailcat_quic.NetAddr.{Addr, v4, v6, AddrPort, Prefix, addr_eq, contains, pfx_of, all_ipv6}
use tailcat_quic.NetAddr.Laws.{Fits, addr_eq_iff, contains-pfx_of}
use tailcat_quic.Service.{
  PortRange, Proto, tcp, udp, NetPortRange, Match, Filter, Listener, Server, all_ports,
  append_listener_ports, dsts_of, match_of, is_set, self_ports, udp_ports, when,
  build_filter_locked,
}
use tailcat_quic.Service.Handlers.{in_range, is_served}

abbrev pub is_v6 : Addr → Bool
is_v6 (v4 n) = false
is_v6 (v6 n) = true

abbrev pub same_proto : Proto → Proto → Bool
same_proto tcp tcp = true
same_proto udp udp = true
same_proto _ _ = false

abbrev names_dst : AddrPort → NetPortRange → Bool
names_dst dst d = contains d.net dst.addr && in_range dst.port d.ports

abbrev names_flow : Proto → Addr → AddrPort → Match → Bool
names_flow proto src dst m =
    same_proto m.ip_proto proto && (any (λ p. contains p src) m.srcs && any (names_dst dst) m.dsts)

-- Some match of the filter names the protocol, the source and the destination.
abbrev pub covers : Filter → Proto → Addr → AddrPort → Bool
covers f proto src dst = any (names_flow proto src dst) f.matches

module _ {ℓ} {A : Type ℓ} where
  any-append : (f : A → Bool) (xs ys : List A) → any f (xs ++ ys) ≡ (any f xs || any f ys)
  any-append f [] ys = refl
  any-append f (x ∷ xs) ys = ground (arith, any-append f xs ys)

any-dsts_of :
    (dst : AddrPort) (net : Prefix) (rs : List PortRange)
    → any (names_dst dst) (dsts_of net rs) ≡ (contains net dst.addr && any (in_range dst.port) rs)
any-dsts_of dst net [] = ground arith
any-dsts_of dst net (r ∷ rs) = ground (arith, any-dsts_of dst net rs)

abbrev single : ℕ × Listener → PortRange
single e = record { first = e.0; last = e.0 }

any-listeners :
    (port : ℕ) (m : List (ℕ × Listener))
    → any (in_range port) (map single m) ≡ is_set (lookup port m)
unfolding lookup
any-listeners port [] = refl
any-listeners port ((p, ln) ∷ m) = ground (arith, any-listeners port m)

any-self_ports :
    (port : ℕ) (served : Option (List PortRange)) (m : List (ℕ × Listener))
    → port ≤ 65535
    → any (in_range port) (self_ports served m) ≡ (is_served port served || is_set (lookup port m))
unfolding self_ports append_listener_ports is_served
any-self_ports port none m h = ground arith
any-self_ports port (some rs) m h =
    any-append (in_range port) rs (map single m)
    ∙ ap (λ b. any (in_range port) rs || b) (any-listeners port m)

-- UDP to an own port: a listener's, or with OnUDP set a served one.
abbrev pub takes_udp : ℕ → Bool → Option (List PortRange) → List (ℕ × Listener) → Bool
takes_udp port on served m = (on && is_served port served) || is_set (lookup port m)

any-udp_ports :
    (port : ℕ) (on : Bool) (served : Option (List PortRange)) (m : List (ℕ × Listener))
    → port ≤ 65535
    → any (in_range port) (udp_ports on served m) ≡ takes_udp port on served m
unfolding udp_ports append_listener_ports is_served
any-udp_ports port false served m h = any-listeners port m
any-udp_ports port true none m h = ground arith
any-udp_ports port true (some rs) m h =
    any-append (in_range port) rs (map single m)
    ∙ ap (λ b. any (in_range port) rs || b) (any-listeners port m)

contains-all_ipv6 : (a : Addr) → Fits a → contains all_ipv6 a ≡ is_v6 a
unfolding contains
contains-all_ipv6 (v4 n) f = refl
contains-all_ipv6 (v6 n) f = ground arith

bool_ext : (a b : Bool) → (a ≡ true → b ≡ true) → (b ≡ true → a ≡ true) → a ≡ b
bool_ext a b f g = ground arith

contains-own : (own a : Addr) → contains (pfx_of own) a ≡ addr_eq a own
contains-own own a =
    bool_ext (contains (pfx_of own) a) (addr_eq a own)
      (λ h. (addr_eq_iff a own).1 (sym ((contains-pfx_of own a).0 h)))
      (λ h. (contains-pfx_of own a).1 (sym ((addr_eq_iff a own).0 h)))

any-when :
    (proto : Proto) (src : Addr) (dst : AddrPort) (b : Bool) (m : Match)
    → any (names_flow proto src dst) (when b m) ≡ (b && names_flow proto src dst m)
any-when proto src dst true m = ground arith
any-when proto src dst false m = refl

abbrev everywhere : List NetPortRange
everywhere = record { net = all_ipv6; ports = all_ports } ∷ []

module _ (proto : Proto) (src : Addr) (dst : AddrPort) (fits_src : Fits src)
    (fits_dst : Fits dst.addr) (port_ok : dst.port ≤ 65535) where
  names-match_of :
      (q : Proto) (dsts : List NetPortRange)
      → names_flow proto src dst (match_of q dsts)
        ≡ (same_proto q proto && (is_v6 src && any (names_dst dst) dsts))
  names-match_of q dsts = ground (arith, contains-all_ipv6 src fits_src)

  names-everywhere : any (names_dst dst) everywhere ≡ is_v6 dst.addr
  names-everywhere = ground (arith, contains-all_ipv6 dst.addr fits_dst)

  -- The four matches of the filter, in the order of the list.
  pub covers-build_filter :
      {H U : Type 0} (s : Server H U)
      → covers (build_filter_locked s) proto src dst ≡ (
          (same_proto tcp proto
            && (is_v6 src
                && (addr_eq dst.addr s.own_addr
                    && (is_served dst.port s.config.served_tcp_ports
                        || is_set (lookup dst.port s.tcp_listeners)))))
          || (((is_set s.config.on_udp || ltb 0 (length s.udp_listeners))
                && (same_proto udp proto
                    && (is_v6 src
                        && (addr_eq dst.addr s.own_addr
                            && takes_udp dst.port
                                (is_set s.config.on_udp)
                                s.config.served_udp_ports
                                s.udp_listeners))))
              || ((is_set s.config.on_tcp_forward
                    && (same_proto tcp proto && (is_v6 src && is_v6 dst.addr)))
                  || (is_set s.config.on_udp_forward
                      && (same_proto udp proto && (is_v6 src && is_v6 dst.addr))))))
  unfolding build_filter_locked
  covers-build_filter s =
      rw
        (
          any-append (names_flow proto src dst),
          any-append (names_flow proto src dst),
          any-when proto src dst,
          any-when proto src dst,
          any-when proto src dst,
          names-match_of,
          names-match_of,
          names-match_of,
          names-match_of,
          names-everywhere,
          any-dsts_of dst,
          any-dsts_of dst,
          contains-own,
          any-self_ports dst.port s.config.served_tcp_ports s.tcp_listeners port_ok,
          any-udp_ports dst.port (is_set s.config.on_udp) s.config.served_udp_ports s.udp_listeners
              port_ok,
        )
        refl
