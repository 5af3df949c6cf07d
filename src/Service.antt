-- ===== src/Service.antt =====
-- tailcat.go, listen.go, h3_streams.go: what a started Server serves, its listeners, packet filter and
-- per-connection gates. `H` and `U` are the handlers that the caller's callbacks return.
pub mod Handlers
pub mod Listeners
pub mod Ports
pub mod FilterLaws
pub mod Gates
pub mod Lifecycle
use tailcat_quic.Base.{
  ltb, leb, ◌==◌, if◌then◌else◌, ltb→lt, lt→ltb, leb→le, ==_iff, Bool-cases, Option-cases, Eq, beq,
  beq_refl, eq_of_beq, not_rejected, was_required, or-eq_false, not-eq_false, some-eq, length,
  get_elem?, get_or, take, drop, replicate, length-append, take-append-drop, length-take,
  length-drop, take-length_append, drop-length_append, take-of_length, drop-of_length,
  length-replicate, All, any, take-two_fields, take-drop-two_fields, drop-drop-two_fields,
  three_fields, drop-drop, four_fields, codes, bytes_eq, bytes_eq_sound, bytes_eq_self,
  bytes_eq_iff, slice, has_prefix, IsByte, lookup, insert, erase, lookup-insert, lookup-erase,
  length-erase-le, length-erase-present, length-insert-absent, ℕ, zero, suc, ◌+◌, ◌-◌, ◌*◌, ◌/◌,
  ◌%◌, ◌^◌, ◌≤◌, ◌<◌, max, min, compare, Ordering, ◌≡◌, refl, sym, ap, ap₂, ◌∙◌, subst, ◌≢◌, ◌↔◌,
  ◌⊎◌, inl, inr, Bool, true, false, not, ◌&&◌, ◌||◌, Option, none, some, List, [], ◌∷◌, ◌++◌, map,
  append_assoc, append-nil, arith, ℕ_discrete, nat_eq,
}
use tailcat_quic.NetAddr.{Addr, AddrPort, Prefix, pfx_of, all_ipv6}

-- filter.PortRange
pub record PortRange : Type 0 where
  pub first : ℕ
  pub last : ℕ

pub data Proto : Type 0 where
  tcp udp : Proto

-- filter.NetPortRange
pub record NetPortRange : Type 0 where
  pub net : Prefix
  pub ports : PortRange

-- filter.Match
pub record Match : Type 0 where
  pub ip_proto : Proto
  pub srcs : List Prefix
  pub dsts : List NetPortRange

-- The arguments of filter.New that depend on the configuration.
pub record Filter : Type 0 where
  pub matches : List Match
  pub local_nets : List Prefix

-- listener; its object is named by `id`.
pub record Listener : Type 0 where
  pub id : ℕ
  pub udp : Bool
  pub port : ℕ

-- The callbacks and port lists of a Server. A nil callback is `none`, and so is a nil slice.
pub record Config (H U : Type 0) : Type 0 where
  pub on_tcp : Option (ℕ → Option H)
  pub on_tcp_forward : Option (AddrPort → Option H)
  pub on_udp : Option (ℕ → Option U)
  pub on_udp_forward : Option (AddrPort → Option U)
  pub served_tcp_ports : Option (List PortRange)
  pub served_udp_ports : Option (List PortRange)

-- A started Server. `closed` holds the listeners whose flag is set, `installed` is the engine's filter.
pub record Server (H U : Type 0) : Type 0 where
  pub own_addr : Addr
  pub config : Config H U
  pub tcp_listeners : List (ℕ × Listener)
  pub udp_listeners : List (ℕ × Listener)
  pub closed : List ℕ
  pub next_id : ℕ
  pub installed : Option Filter

abbrev pub all_ports : PortRange
all_ports = record { first = 0; last = 65535 }

-- appendListenerPorts
unfoldable pub append_listener_ports : List PortRange → List (ℕ × Listener) → List PortRange
append_listener_ports ranges m =
    ranges ++ map (λ (e : ℕ × Listener). record { first = e.0; last = e.0 }) m

abbrev pub dsts_of : Prefix → List PortRange → List NetPortRange
dsts_of net ranges = map (λ pr. record { net = net; ports = pr }) ranges

abbrev pub match_of : Proto → List NetPortRange → Match
match_of proto dsts = record { ip_proto = proto; srcs = all_ipv6 ∷ []; dsts = dsts }

abbrev pub is_set {ℓ} : {A : Type ℓ} → Option A → Bool
is_set none = false
is_set (some a) = true

-- The ports of the server's own address that take TCP.
unfoldable pub self_ports : Option (List PortRange) → List (ℕ × Listener) → List PortRange
unfolding append_listener_ports
self_ports none m = all_ports ∷ []
self_ports (some served) m = append_listener_ports served m

-- The ports of the server's own address that take UDP.
unfoldable pub udp_ports : Bool → Option (List PortRange) → List (ℕ × Listener) → List PortRange
unfolding append_listener_ports
udp_ports false served m = append_listener_ports [] m
udp_ports true (some served) m = append_listener_ports served m
udp_ports true none m = all_ports ∷ []

abbrev pub when {ℓ} : {A : Type ℓ} → Bool → A → List A
when true a = a ∷ []
when false a = []

module _ {H U : Type 0} where
  -- buildFilterLocked
  unfoldable pub build_filter_locked : Server H U → Filter
  unfolding self_ports udp_ports
  build_filter_locked s =
      let c = s.config in
      let own = pfx_of s.own_addr in
      let everywhere : List NetPortRange = record { net = all_ipv6; ports = all_ports } ∷ [] in
      record {
        matches =
            match_of tcp (dsts_of own (self_ports c.served_tcp_ports s.tcp_listeners))
            ∷ (when (is_set c.on_udp || ltb 0 (length s.udp_listeners)) (
                  match_of udp
                    (dsts_of own (udp_ports (is_set c.on_udp) c.served_udp_ports s.udp_listeners)))
                ++ (when (is_set c.on_tcp_forward) (match_of tcp everywhere)
                    ++ when (is_set c.on_udp_forward) (match_of udp everywhere)));
        local_nets = own ∷ when (is_set c.on_tcp_forward || is_set c.on_udp_forward) all_ipv6;
      }

  -- installFilterLocked
  unfoldable pub install_filter_locked : Server H U → Server H U
  unfolding build_filter_locked
  install_filter_locked s = record s { installed = some (build_filter_locked s) }

  -- listenerForPort
  unfoldable pub listener_for_port : Proto → ℕ → Server H U → Option Listener
  listener_for_port tcp port s = lookup port s.tcp_listeners
  listener_for_port udp port s = lookup port s.udp_listeners
