-- ===== src/Examples/Command.antt =====
-- The properties of the command line and of the local DNS server at concrete inputs.
use tailcat_quic.Base.{
  ◌==◌, if◌then◌else◌, get_elem?, codes, ℕ, ◌+◌, ◌/◌, ◌≡◌, refl, true, Option, none, some, List, [],
  ◌∷◌, ◌++◌, arith, nat_eq,
}
use tailcat_quic.Results.{ok, Ends}
use tailcat_quic.NetAddr.{v6, AddrPort}
use tailcat_quic.Service.{tcp, Server, is_set, build_filter_locked}
use tailcat_quic.Service.Handlers.{get_tcp_handler_for_flow}
use tailcat_quic.Service.FilterLaws.{covers}
use tailcat_quic.Text.{split, trim_space, is_digits, parse_uint16, cut}
use tailcat_quic.Cli.{no_services, add_port, add_ports}
use tailcat_quic.Cli.Ports.{parse_port_set}
use tailcat_quic.Cli.Serve.{Flags, Plan, Handler, plan_server, server_config}
use tailcat_quic.Cli.Serve.Filtered.{with_plan, planned_filter_agrees}
use tailcat_quic.Cli.Serve.Accepted.{plan_server_outcome}
use tailcat_quic.Cli.Serve.Asked.{Explains, IsAsked}
use tailcat_quic.Cli.Quote.{proxy_command_join_unix, control_characters}
use tailcat_quic.Cli.Quote.Shell.{proxy_command_words}
use tailcat_quic.Cli.Quote.RoundTrip.{has_refused, read_by, proxy_command_words-join_unix}
use tailcat_quic.Cli.Ping.{Round, pong, client_ping_mode}
use tailcat_quic.Cli.Ping.Ends.{Ended, client_ping_mode_ends}
use tailcat_quic.Cli.Forward.{run_forward}
use tailcat_quic.Cli.Forward.Listening.{ClosesAll, run_forward-ClosesAll}
use tailcat_quic.LocalDns.{frame, Messages, read_query, serve, serve_loop}
use tailcat_quic.LocalDns.Frames.{stream, responses, serve_answers}

abbrev spec : List ℕ
spec = codes "no-auth-ssh,8080"

abbrev flags : Flags
flags = record { files = []; ssh_authorized_keys = []; ssh_enabled = true }

abbrev look_path : List ℕ → Option (List ℕ)
look_path w = some w

abbrev no_keys : List ℕ → Option (List (List ℕ))
no_keys s = none

abbrev plan : Plan
plan = record {
  ports = 8080 ∷ [];
  services = record no_services { no_auth_ssh = true };
  exec_args = none;
  ssh_authorized_keys = [];
}

plan-accepted : plan_server look_path no_keys flags spec none ≡ ok plan
unfolding plan_server parse_port_set split trim_space is_digits parse_uint16 cut add_port add_ports
plan-accepted = refl

abbrev started : Server Handler Handler
started = record {
  own_addr = v6 5;
  config = server_config plan;
  tcp_listeners = [];
  udp_listeners = [];
  closed = [];
  next_id = 0;
  installed = none;
}

abbrev to_ssh : AddrPort
to_ssh = record { addr = v6 5; port = 22 }

planned_filter_agrees_example :
    covers (build_filter_locked (with_plan plan started)) tcp (v6 9) to_ssh
    ≡ is_set (get_tcp_handler_for_flow to_ssh (with_plan plan started))
planned_filter_agrees_example =
    planned_filter_agrees look_path no_keys flags spec none plan started (v6 9) to_ssh plan-accepted
      (omega arith) (omega arith) (omega arith) refl refl

spec-parses : parse_port_set true spec ≡ ok (8080 ∷ [], record no_services { no_auth_ssh = true })
unfolding parse_port_set split trim_space is_digits parse_uint16 cut add_port add_ports
spec-parses = refl

plan_server_outcome_example :
    Ends
      (Explains look_path no_keys flags
        (some (codes "date" ∷ []))
        (record no_services { no_auth_ssh = true }))
      (IsAsked look_path no_keys flags
        (some (codes "date" ∷ []))
        (8080 ∷ [])
        (record no_services { no_auth_ssh = true }))
      (plan_server look_path no_keys flags spec (some (codes "date" ∷ [])))
plan_server_outcome_example =
    plan_server_outcome look_path no_keys flags spec (some (codes "date" ∷ [])) (8080 ∷ [])
      (record no_services { no_auth_ssh = true }) spec-parses

abbrev words : List (List ℕ)
words = codes "/opt/it's 100%/tailcat" ∷ (codes "tch3abc" ∷ (codes "22" ∷ []))

proxy_command_words-join_unix_example :
    read_by proxy_command_words (proxy_command_join_unix words)
    ≡ (if has_refused control_characters words then none else some words)
proxy_command_words-join_unix_example = proxy_command_words-join_unix words

relayed_then_direct : ℕ → Round
relayed_then_direct n = record {
  took = 40000000;
  result = pong (if n == 0 then [] else codes "192.0.2.1:41641");
  printing = 1000;
  pausing = 1000;
  oversleep = 0;
}

client_ping_mode_ends_example :
    Ended true
      (1000 + 30000000000)
      relayed_then_direct
      0
      (30000000000 / 1000000000 + 2)
      (client_ping_mode true 30000000000 relayed_then_direct 1000)
client_ping_mode_ends_example = client_ping_mode_ends true 30000000000 relayed_then_direct 1000

abbrev no_addr_port : List ℕ → Option AddrPort
no_addr_port s = none

run_forward-ClosesAll_example : ClosesAll (
    run_forward no_addr_port
      (codes "127.0.0.1")
      (λ i a. i == 0)
      (codes "8080" ∷ (codes "0:80" ∷ [])))
run_forward-ClosesAll_example =
    run_forward-ClosesAll no_addr_port (codes "127.0.0.1") (λ i a. i == 0)
      (codes "8080" ∷ (codes "0:80" ∷ []))

abbrev dns : Messages
dns = record {
  start = λ q. get_elem? q 0;
  question = λ q. some (record { name = codes "localhost."; type = 1 });
  build = λ h q rs. some (h.id ∷ []);
}

serve_answers_example :
    (serve dns (stream ((7 ∷ []) ∷ ((8 ∷ []) ∷ [])) ++ (0 ∷ []))
      ≡ responses dns ((7 ∷ []) ∷ ((8 ∷ []) ∷ [])))
    × (serve_loop dns 9 (stream ((7 ∷ []) ∷ ((8 ∷ []) ∷ [])) ++ (0 ∷ []))
        ≡ serve dns (stream ((7 ∷ []) ∷ ((8 ∷ []) ∷ [])) ++ (0 ∷ [])))
unfolding read_query frame
serve_answers_example =
    serve_answers dns ((7 ∷ []) ∷ ((8 ∷ []) ∷ [])) (0 ∷ []) 9 (omega arith) refl (omega arith)
