-- ===== src/Examples/Serving.antt =====
-- The properties of listeners, filter and handlers at concrete inputs.
use tailcat_quic.Base.{
  ◌==◌, if◌then◌else◌, replicate, codes, lookup, ℕ, ◌<◌, ◌≡◌, refl, subst, false, ◌&&◌, ◌||◌,
  Option, none, some, List, [], ◌∷◌, ◌++◌, arith, nat_eq,
}
use tailcat_quic.NetAddr.{Addr, v6, AddrPort, addr_eq}
use tailcat_quic.Backend.{Backend, Node}
use tailcat_quic.Secret.Hex.{hex_encode}
use tailcat_quic.Service.{
  tcp, udp, Proto, Listener, Config, Server, is_set, build_filter_locked, install_filter_locked,
}
use tailcat_quic.Service.Listeners.{
  ok, err, err_closed, Names, proto_of, listeners, listen, close, pick_unused_port, is_closed,
  listen_network, listen_split, listen_numbered, listen_checked, check_host, network_is_udp,
  listen_on, listen_unless, add_listener, choose_port,
}
use tailcat_quic.Service.Ports.{Picked, pick_unused_port_outcome}
use tailcat_quic.Service.FilterLaws.{covers, is_v6, takes_udp}
use tailcat_quic.Service.Handlers.{is_served, get_tcp_handler_for_flow, h3_admitted, h3_tcp_handler}
use tailcat_quic.Service.Gates.{covers_tcp, covers_udp, h3_tcp_handler_gates}
use tailcat_quic.Service.Lifecycle.{Inv, same}
use tailcat_quic.Service.Lifecycle.Outcome.{Opened, listen_outcome, close_outcome}
use tailcat_quic.Examples.Codec.{Key, key_of, codec}

abbrev own : Addr
own = v6 5

abbrev config : Config ℕ ℕ
config = record {
  on_tcp = some (λ p. some p);
  on_tcp_forward = none;
  on_udp = none;
  on_udp_forward = none;
  served_tcp_ports = some (record { first = 80; last = 90 } ∷ []);
  served_udp_ports = none;
}

abbrev fresh : Server ℕ ℕ
fresh = record {
  own_addr = own;
  config = config;
  tcp_listeners = [];
  udp_listeners = [];
  closed = [];
  next_id = 0;
  installed = none;
}

started : Server ℕ ℕ
started = install_filter_locked fresh

started-Inv : Inv started
unfolding started install_filter_locked build_filter_locked lookup is_closed
started-Inv = record {
  held = held;
  single = single;
  old = λ ln e. absurd (ground arith);
  current = refl;
}
  where
    held :
        (q : Proto) (port : ℕ) (ln : Listener)
        → lookup port (listeners q (install_filter_locked fresh)) ≡ some ln
        → (ln.port ≡ port) × (proto_of ln.udp ≡ q) × (ln.id < 0) × (false ≡ false)
    held tcp port ln e = absurd (cc e)
    held udp port ln e = absurd (cc e)

    single :
        (q r : Proto) (p t : ℕ) (a b : Listener)
        → lookup p (listeners q (install_filter_locked fresh)) ≡ some a
        → lookup t (listeners r (install_filter_locked fresh)) ≡ some b
        → a.id ≡ b.id
        → (q ≡ r) × (p ≡ t)
    single tcp r p t a b e f g = absurd (cc e)
    single udp r p t a b e f g = absurd (cc e)

abbrev names : Names
names = record {
  split_host_port = λ a. some ([], a);
  lookup_port = λ n p. some 8080;
  parse_addr = λ h. none;
  is_unspecified = λ a. false;
}

pick_unused_port_outcome_example : Picked [] (pick_unused_port 7 [])
pick_unused_port_outcome_example = pick_unused_port_outcome 7 [] (omega arith)

listen_outcome_example : Opened started (listen names 7 (codes "tcp") (codes ":8080") started)
listen_outcome_example = listen_outcome names 7 (codes "tcp") (codes ":8080") started started-Inv

listening : Server ℕ ℕ
listening = (listen names 7 (codes "tcp") (codes ":8080") started).1

abbrev web : Listener
web = record { id = 0; udp = false; port = 8080 }

opens : listen names 7 (codes "tcp") (codes ":8080") started ≡ (ok web, listening)
unfolding listening listen listen_network listen_split listen_numbered listen_checked check_host
    network_is_udp listen_on listen_unless add_listener choose_port lookup started
    install_filter_locked pick_unused_port
opens = refl

listening-outcome : Opened started (ok web, listening)
listening-outcome = subst (Opened started) opens listen_outcome_example

held-web : lookup 8080 (listeners tcp listening) ≡ some web
unfolding lookup
held-web = listening-outcome.2 tcp 8080

close_outcome_example :
    ((close web listening).0 ≡ ok tt)
    × Inv (close web listening).1
    × ((q : Proto) (t : ℕ)
        → lookup t (listeners q (close web listening).1)
          ≡ (if same tcp q && 8080 == t then none else lookup t (listeners q listening)))
    × (close web (close web listening).1 ≡ (err err_closed, (close web listening).1))
close_outcome_example = close_outcome web listening listening-outcome.0 held-web

abbrev dst : AddrPort
dst = record { addr = own; port = 85 }

covers_tcp_example : covers (build_filter_locked fresh) tcp (v6 9) dst ≡ (
    is_v6 (v6 9)
    && ((addr_eq own own
          && (is_served 85 config.served_tcp_ports || is_set (lookup 85 fresh.tcp_listeners)))
        || (is_set config.on_tcp_forward && is_v6 own)))
covers_tcp_example = covers_tcp fresh (v6 9) dst (omega arith) (omega arith) (omega arith)

covers_udp_example : covers (build_filter_locked fresh) udp (v6 9) dst ≡ (
    is_v6 (v6 9)
    && ((addr_eq own own
          && takes_udp 85 (is_set config.on_udp) config.served_udp_ports fresh.udp_listeners)
        || (is_set config.on_udp_forward && is_v6 own)))
covers_udp_example = covers_udp fresh (v6 9) dst (omega arith) (omega arith) (omega arith)

abbrev client : Node Key Key
client = record {
  id = 2;
  key = key_of 3;
  disco_key = key_of 4;
  addresses = [];
  allowed_ips = [];
  home_derp = 1;
}

abbrev lb : Backend Key Key
lb = record {
  public_key = key_of 1;
  disco_public = key_of 2;
  own_addr = own;
  server_pub = key_of 0;
  derp_region = 1;
  allowed_clients = none;
  clients = (key_of 3, client) ∷ [];
  client_leases = [];
  next_client_id = 1;
  nm = none;
  eps = [];
}

abbrev some_key : List ℕ → Option Key
some_key text = some (key_of 3)

h3_tcp_handler_gates_example : h3_tcp_handler codec some_key (replicate 32 3) dst lb fresh ≡ (
    if h3_admitted codec (some_key (codes "nodekey:" ++ hex_encode (replicate 32 3))) lb
      && covers (build_filter_locked fresh) tcp (v6 9) dst
    then get_tcp_handler_for_flow dst fresh
    else none)
h3_tcp_handler_gates_example =
    h3_tcp_handler_gates codec some_key (replicate 32 3) (v6 9) dst lb fresh (omega arith)
      (omega arith) (omega arith) refl refl refl
