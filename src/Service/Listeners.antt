-- ===== src/Service/Listeners.antt =====
-- listen.go: Listen on a started server, the choice of an unused port, and the closing of a listener.
use tailcat_quic.Base.{
  ◌==◌, if◌then◌else◌, any, codes, bytes_eq, lookup, insert, erase, ℕ, zero, suc, ◌+◌, ◌%◌, Bool,
  true, false, ◌||◌, Option, none, some, List, [], ◌∷◌, nat_eq,
}
use tailcat_quic.NetAddr.{Addr, addr_eq}
use tailcat_quic.Service.{Listener, Server, Proto, tcp, udp, install_filter_locked}

abbrev pub dynamic_lo : ℕ
dynamic_lo = 32768

abbrev pub dynamic_hi : ℕ
dynamic_hi = 60999

-- hi - lo + 1
abbrev pub dynamic_count : ℕ
dynamic_count = 28232

-- The port of a round.
abbrev pub nth_port : ℕ → ℕ → ℕ
nth_port start i = (dynamic_lo + (start + i) % dynamic_count) % 65536

-- The loop of pickUnusedPort, with the number of rounds left and the round.
unfoldable pub pick_round : ℕ → ℕ → ℕ → List (ℕ × Listener) → Option ℕ
pick_round zero i start m = none
pick_round (suc left) i start m = elim (lookup (nth_port start i) m) [
  | none ↦ some (nth_port start i)
  | some _ ↦ pick_round left (i + 1) start m
]

-- pickUnusedPort, with the outcome of rand.Intn.
unfoldable pub pick_unused_port : ℕ → List (ℕ × Listener) → Option ℕ
unfolding pick_round
pick_unused_port start m = pick_round dynamic_count 0 start m

pub data ListenError : Type 0 where
  unsupported_network bad_address bad_port invalid_host wrong_host no_unused_ports already_in_use :
      ListenError
  err_closed : ListenError

pub data Result (A : Type 0) : Type 0 where
  ok : A → Result A
  err : ListenError → Result A

-- The functions of net and net/netip that Listen calls.
pub record Names : Type 0 where
  pub split_host_port : List ℕ → Option (List ℕ × List ℕ)
  pub lookup_port : List ℕ → List ℕ → Option ℕ
  pub parse_addr : List ℕ → Option Addr
  pub is_unspecified : Addr → Bool

-- `udp` as the networks set it; `none` is an unsupported one.
unfoldable pub network_is_udp : List ℕ → Option Bool
network_is_udp network =
    if bytes_eq network (codes "tcp") || bytes_eq network (codes "tcp6")
    then some false
    else if bytes_eq network (codes "udp") || bytes_eq network (codes "udp6")
    then some true
    else none

abbrev pub proto_of : Bool → Proto
proto_of false = tcp
proto_of true = udp

module _ {H U : Type 0} where
  abbrev pub listeners : Proto → Server H U → List (ℕ × Listener)
  listeners tcp s = s.tcp_listeners
  listeners udp s = s.udp_listeners

  abbrev pub set_listeners : Proto → List (ℕ × Listener) → Server H U → Server H U
  set_listeners tcp m s = record s { tcp_listeners = m }
  set_listeners udp m s = record s { udp_listeners = m }

  -- The end of Listen, with the port chosen and found unused.
  unfoldable pub add_listener : Bool → ℕ → Server H U → Result Listener × Server H U
  add_listener is_udp port s =
      let ln : Listener = record { id = s.next_id; udp = is_udp; port = port } in
      (
        ok ln,
        install_filter_locked
            (record (set_listeners (proto_of is_udp)
              (insert port ln (listeners (proto_of is_udp) s)) s) { next_id = s.next_id + 1 }),
      )

  -- Listen from the chosen port on, with the entry that the port has already.
  unfoldable pub listen_unless :
      Option Listener → Bool → ℕ → Server H U → Result Listener × Server H U
  unfolding add_listener
  listen_unless (some dup) is_udp port s = (err already_in_use, s)
  listen_unless none is_udp port s = add_listener is_udp port s

  unfoldable pub listen_on : Bool → Option ℕ → Server H U → Result Listener × Server H U
  unfolding listen_unless
  listen_on is_udp none s = (err no_unused_ports, s)
  listen_on is_udp (some port) s =
      listen_unless (lookup port (listeners (proto_of is_udp) s)) is_udp port s

  -- The port that Listen uses, by the number that was looked up.
  unfoldable pub choose_port : Bool → ℕ → ℕ → Server H U → Option ℕ
  unfolding pick_unused_port
  choose_port is_udp random port_num s =
      let picked = pick_unused_port random (listeners (proto_of is_udp) s) in
      if port_num == 0 then picked else some (port_num % 65536)

  -- The check of the host: empty, unspecified, or the server's own address.
  unfoldable pub check_host : Names → List ℕ → Server H U → Option ListenError
  check_host names [] s = none
  check_host names (c ∷ host) s = elim (names.parse_addr (c ∷ host)) [
    | none ↦ some invalid_host
    | some ip ↦ if names.is_unspecified ip || addr_eq ip s.own_addr then none else some wrong_host
  ]

  -- Listen after the address is split and the port looked up.
  unfoldable pub listen_checked :
      Option ListenError → Bool → ℕ → ℕ → Server H U → Result Listener × Server H U
  unfolding listen_on choose_port
  listen_checked (some e) is_udp random port_num s = (err e, s)
  listen_checked none is_udp random port_num s =
      listen_on is_udp (choose_port is_udp random port_num s) s

  -- Listen with the port looked up, or not found.
  unfoldable pub listen_numbered :
      Names → ℕ → List ℕ → Bool → Option ℕ → Server H U → Result Listener × Server H U
  unfolding listen_checked check_host
  listen_numbered names random host is_udp none s = (err bad_port, s)
  listen_numbered names random host is_udp (some port_num) s =
      listen_checked (check_host names host s) is_udp random port_num s

  -- Listen with the address split, or malformed.
  unfoldable pub listen_split :
      Names
      → ℕ
      → List ℕ
      → Bool
      → Option (List ℕ × List ℕ)
      → Server H U
      → Result Listener × Server H U
  unfolding listen_numbered
  listen_split names random network is_udp none s = (err bad_address, s)
  listen_split names random network is_udp (some (host, port_str)) s =
      listen_numbered names random host is_udp (names.lookup_port network port_str) s

  -- Listen with the network known, or not.
  unfoldable pub listen_network :
      Names → ℕ → List ℕ → List ℕ → Option Bool → Server H U → Result Listener × Server H U
  unfolding listen_split
  listen_network names random network address none s = (err unsupported_network, s)
  listen_network names random network address (some is_udp) s =
      listen_split names random network is_udp (names.split_host_port address) s

  -- Listen, with the outcome of rand.Intn.
  unfoldable pub listen : Names → ℕ → List ℕ → List ℕ → Server H U → Result Listener × Server H U
  unfolding listen_network network_is_udp
  listen names random network address s =
      listen_network names random network address (network_is_udp network) s

  unfoldable pub is_closed : Listener → Server H U → Bool
  is_closed ln s = any (λ i. i == ln.id) s.closed

  -- Drop the entry of a listener's port and set its flag; closing `closedc` is part of that.
  unfoldable pub release : Listener → Server H U → Server H U
  release ln s =
      record (set_listeners (proto_of ln.udp) (erase ln.port (listeners (proto_of ln.udp) s)) s) {
        closed = ln.id ∷ s.closed;
      }

  -- closeLocked
  unfoldable pub close_locked : Bool → Listener → Server H U → Result (Unit {0}) × Server H U
  unfolding is_closed release
  close_locked install_filter ln s =
      if is_closed ln s
      then (err err_closed, s)
      else (ok tt, if install_filter then install_filter_locked (release ln s) else release ln s)

  -- Close of a listener.
  unfoldable pub close : Listener → Server H U → Result (Unit {0}) × Server H U
  unfolding close_locked
  close ln s = close_locked true ln s

  -- A loop of Server.Close over one map.
  unfoldable pub close_all : List (ℕ × Listener) → Server H U → Server H U
  unfolding close_locked
  close_all [] s = s
  close_all ((p, ln) ∷ m) s = close_all m (close_locked false ln s).1

  -- Server.Close up to the closing of the backend.
  unfoldable pub close_server : Server H U → Server H U
  unfolding close_all
  close_server s = let s' = close_all s.tcp_listeners s in close_all s'.udp_listeners s'
