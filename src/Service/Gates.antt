-- ===== src/Service/Gates.antt =====
-- The packet filter and the handlers agree on what is served, on the IP path and on QUIC streams.
use tailcat_quic.Base.{
  ltb, if◌then◌else◌, Bool-cases, length, codes, lookup, ℕ, ◌≤◌, ◌≡◌, refl, inl, inr, Bool, true,
  false, ◌&&◌, ◌||◌, Option, none, some, List, [], ◌∷◌, ◌++◌, arith, nat_eq,
}
use tailcat_quic.Keys.{KeyCodec}
use tailcat_quic.NetAddr.{Addr, AddrPort, addr_eq}
use tailcat_quic.NetAddr.Laws.{Fits}
use tailcat_quic.Backend.{Backend}
use tailcat_quic.Secret.Hex.{hex_encode}
use tailcat_quic.Service.{
  PortRange, tcp, udp, Listener, Server, is_set, build_filter_locked, listener_for_port,
}
use tailcat_quic.Service.Handlers.{
  Target, ask, listener_or, forwarded, is_served, get_tcp_handler_for_flow, h3_stream_target,
  h3_admitted, h3_tcp_handler,
}
use tailcat_quic.Service.FilterLaws.{covers, is_v6, takes_udp, covers-build_filter}

lookup-length : (p : ℕ) (m : List (ℕ × Listener)) → length m ≡ 0 → lookup p m ≡ none
unfolding lookup
lookup-length p [] h = refl
lookup-length p (e ∷ m) h = absurd (omega arith)

-- `&&` with the guard of the UDP match changes nothing: without OnUDP and listeners no port takes UDP.
guard_takes :
    (on : Bool) (port : ℕ) (served : Option (List PortRange)) (m : List (ℕ × Listener))
    → ((on || ltb 0 (length m)) && takes_udp port on served m) ≡ takes_udp port on served m
guard_takes on port served m = ground (arith, lookup-length port m)

module _ {H U : Type 0} (s : Server H U) (src : Addr) (dst : AddrPort) (fits_src : Fits src)
    (fits_dst : Fits dst.addr) (port_ok : dst.port ≤ 65535) where
  -- The filter names a TCP flow exactly if its source is IPv6 and it goes to a served or listened-on
  -- port of the server's own address, or to any IPv6 address while OnTCPForward is set.
  pub covers_tcp : covers (build_filter_locked s) tcp src dst ≡ (
      is_v6 src
      && ((addr_eq dst.addr s.own_addr
            && (is_served dst.port s.config.served_tcp_ports
                || is_set (lookup dst.port s.tcp_listeners)))
          || (is_set s.config.on_tcp_forward && is_v6 dst.addr)))
  covers_tcp = ground (arith, covers-build_filter tcp src dst fits_src fits_dst port_ok s)

  -- The filter names a UDP flow exactly if its source is IPv6 and it goes to a port of the server's
  -- own address that has a listener or, with OnUDP set, is served, or to any IPv6 address, the own one
  -- and its ports that are not served included, while OnUDPForward is set.
  pub covers_udp : covers (build_filter_locked s) udp src dst ≡ (
      is_v6 src
      && ((addr_eq dst.addr s.own_addr
            && takes_udp dst.port
                (is_set s.config.on_udp)
                s.config.served_udp_ports
                s.udp_listeners)
          || (is_set s.config.on_udp_forward && is_v6 dst.addr)))
  covers_udp = ground (
    arith,
    covers-build_filter udp src dst fits_src fits_dst port_ok s,
    guard_takes (is_set s.config.on_udp) dst.port s.config.served_udp_ports s.udp_listeners,
  )

listener_or-served :
    {H : Type 0} (o : Option Listener) (t : Option (Target H)) (b : Bool)
    → listener_or o (if b then t else none) ≡ (if b || is_set o then listener_or o t else none)
unfolding listener_or
listener_or-served none t true = refl
listener_or-served none t false = refl
listener_or-served (some ln) t true = refl
listener_or-served (some ln) t false = refl

ask-unset :
    {H A : Type 0} (f : Option (A → Option H)) (a : A)
    → ask f a ≡ (if is_set f then ask f a else none)
unfolding ask
ask-unset none a = refl
ask-unset (some f) a = refl

module _ {H U : Type 0} (s : Server H U) (dst : AddrPort) where
  -- The end of the stream handler as the netstack handler behind its gates.
  stream_gates : h3_stream_target dst s ≡ (
      if (if addr_eq dst.addr s.own_addr
        then is_served dst.port s.config.served_tcp_ports
          || is_set (lookup dst.port s.tcp_listeners)
        else is_set s.config.on_tcp_forward)
      then get_tcp_handler_for_flow dst s
      else none)
  unfolding h3_stream_target get_tcp_handler_for_flow listener_for_port
  stream_gates = elim (Bool-cases (addr_eq dst.addr s.own_addr)) [
    | inl own ↦ rw own (
        listener_or-served (lookup dst.port s.tcp_listeners) (ask s.config.on_tcp dst.port)
          (is_served dst.port s.config.served_tcp_ports))
    | inr away ↦ rw away (ask-unset s.config.on_tcp_forward (forwarded dst))
  ]

module _ {N D H U : Type 0} (node : KeyCodec N) (unmarshal_node_public : List ℕ → Option N) where
  -- A QUIC stream of an admitted peer gets the handler that the IP path gives the same flow, if the
  -- packet filter names that flow, and none otherwise, for an IPv6 source and destination; this holds
  -- for the server's own address while OnTCPForward is not set, and for all other addresses. A peer
  -- that is not admitted gets none.
  pub h3_tcp_handler_gates :
      (peer : List ℕ) (src : Addr) (dst : AddrPort) (lb : Backend N D) (s : Server H U)
      → Fits src
      → Fits dst.addr
      → dst.port ≤ 65535
      → is_v6 src ≡ true
      → is_v6 dst.addr ≡ true
      → (addr_eq dst.addr s.own_addr && is_set s.config.on_tcp_forward) ≡ false
      → h3_tcp_handler node unmarshal_node_public peer dst lb s ≡ (
          if h3_admitted node (unmarshal_node_public (codes "nodekey:" ++ hex_encode peer)) lb
            && covers (build_filter_locked s) tcp src dst
          then get_tcp_handler_for_flow dst s
          else none)
  unfolding h3_tcp_handler
  h3_tcp_handler_gates peer src dst lb s fs fd p vs vd own =
      rw (stream_gates s dst, covers_tcp s src dst fs fd p, vs, vd) (ground (arith, own))
