-- ===== src/Service/Handlers.antt =====
-- Who takes a TCP connection or a UDP flow: the netstack callbacks set in startLocked, and
-- h3TCPHandler of h3_streams.go.
use tailcat_quic.Base.{
  leb, if◌then◌else◌, any, codes, ℕ, Bool, true, false, ◌&&◌, Option, none, some, List, ◌++◌,
}
use tailcat_quic.Keys.{KeyCodec}
use tailcat_quic.NetAddr.{AddrPort, addr_eq, from_nat64}
use tailcat_quic.Backend.{Backend}
use tailcat_quic.Backend.Policy.{peer_config}
use tailcat_quic.Secret.Hex.{hex_encode}
use tailcat_quic.Service.{PortRange, Listener, Server, tcp, udp, listener_for_port}

-- Where a connection goes: to a listener's handle method, or to what a callback returned.
pub data Target (H : Type 0) : Type 0 where
  to_listener : Listener → Target H
  to_callback : H → Target H

module _ {H : Type 0} where
  -- A callback that may be nil, asked for its handler.
  unfoldable pub ask : {A : Type 0} → Option (A → Option H) → A → Option (Target H)
  ask none a = none
  ask (some f) a = called (f a)
    where
      called : Option H → Option (Target H)
      called none = none
      called (some h) = some (to_callback h)

  unfoldable pub listener_or : Option Listener → Option (Target H) → Option (Target H)
  listener_or none t = t
  listener_or (some ln) t = some (to_listener ln)

-- The destination that a Forward callback is asked for.
unfoldable pub forwarded : AddrPort → AddrPort
forwarded dst = record { addr = from_nat64 dst.addr; port = dst.port }

abbrev pub in_range : ℕ → PortRange → Bool
in_range port r = leb r.first port && leb port r.last

-- The `allowed` of h3TCPHandler.
unfoldable pub is_served : ℕ → Option (List PortRange) → Bool
is_served port none = true
is_served port (some ranges) = any (in_range port) ranges

module _ {H U : Type 0} where
  -- GetTCPHandlerForFlow. `none` is a nil handler, which makes netstack send a RST; the flow is
  -- intercepted on every branch.
  unfoldable pub get_tcp_handler_for_flow : AddrPort → Server H U → Option (Target H)
  unfolding ask listener_or forwarded
  get_tcp_handler_for_flow dst s =
      if addr_eq dst.addr s.own_addr
      then listener_or (listener_for_port tcp dst.port s) (ask s.config.on_tcp dst.port)
      else ask s.config.on_tcp_forward (forwarded dst)

  -- GetUDPHandlerForFlow. A handler's flow is wrapped with the idle timeout.
  unfoldable pub get_udp_handler_for_flow : AddrPort → Server H U → Option (Target U)
  unfolding ask listener_or forwarded
  get_udp_handler_for_flow dst s =
      if addr_eq dst.addr s.own_addr
      then listener_or (listener_for_port udp dst.port s) (ask s.config.on_udp dst.port)
      else ask s.config.on_udp_forward (forwarded dst)

  -- The end of h3TCPHandler, for a peer with a configuration.
  unfoldable pub h3_stream_target : AddrPort → Server H U → Option (Target H)
  unfolding ask listener_or forwarded is_served
  h3_stream_target dst s =
      if addr_eq dst.addr s.own_addr
      then listener_or (listener_for_port tcp dst.port s) (
          if is_served dst.port s.config.served_tcp_ports
          then ask s.config.on_tcp dst.port
          else none)
      else ask s.config.on_tcp_forward (forwarded dst)

module _ {N D : Type 0} (node : KeyCodec N) where
  unfoldable pub h3_admitted : Option N → Backend N D → Bool
  h3_admitted none lb = false
  h3_admitted (some k) lb = elim (peer_config node k lb) [ none ↦ false | some _ ↦ true ]

module _ {N D H U : Type 0} (node : KeyCodec N) (unmarshal_node_public : List ℕ → Option N) where
  -- h3TCPHandler, for the key of an authenticated QUIC session.
  unfoldable pub h3_tcp_handler : List ℕ → AddrPort → Backend N D → Server H U → Option (Target H)
  unfolding h3_stream_target h3_admitted
  h3_tcp_handler peer dst lb s =
      if h3_admitted node (unmarshal_node_public (codes "nodekey:" ++ hex_encode peer)) lb
      then h3_stream_target dst s
      else none
