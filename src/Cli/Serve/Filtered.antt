-- ===== src/Cli/Serve/Filtered.antt =====
-- What the packet filter of a planned server admits, and which flows have a handler.
use tailcat_quic.Base.{
  if◌then◌else◌, Bool-cases, Option-cases, lookup, ℕ, ◌≤◌, ◌≡◌, refl, ap, ◌∙◌, inl, inr, Bool, true,
  false, ◌||◌, Option, none, some, List, arith, nat_eq,
}
use tailcat_quic.Results.{Result, ok, err, Holds, Holds-ok, Holds-after, Holds->>=}
use tailcat_quic.NetAddr.{Addr, AddrPort, addr_eq}
use tailcat_quic.NetAddr.Laws.{Fits}
use tailcat_quic.Service.{is_set, Server, Listener, tcp, build_filter_locked, listener_for_port}
use tailcat_quic.Service.Handlers.{Target, ask, listener_or, get_tcp_handler_for_flow, forwarded}
use tailcat_quic.Service.FilterLaws.{covers, is_v6}
use tailcat_quic.Service.Gates.{covers_tcp}
use tailcat_quic.Cli.{AscendsFrom}
use tailcat_quic.Cli.Sets.{parse_port_set-AscendsFrom}
use tailcat_quic.Cli.Ports.{Parsed, PortError, parse_port_set}
use tailcat_quic.Cli.Serve.{
  Plan, Handler, Flags, Command, ServeError, forward_to, on_tcp, server_config, plan_server,
  served_tcp_ports, parse_spec, bad_spec, resolve_command, add_files, check_ssh, authorized_keys,
}
use tailcat_quic.Cli.Serve.Agreement.{served-on_tcp, on_tcp-given}

abbrev InOrder : Parsed → Type 0
InOrder r = AscendsFrom 0 r.0

spec_result :
    (r : Result PortError Parsed)
    → Holds InOrder r
    → Holds InOrder
        (elim r as (λ _. Result ServeError Parsed) [ ok a ↦ ok a | err e ↦ err (bad_spec e) ])
spec_result (ok a) h = h
spec_result (err e) h = tt

module _ (look_path : List ℕ → Option (List ℕ))
    (load_ssh_authorized_keys : List ℕ → Option (List (List ℕ))) (f : Flags) (spec : List ℕ)
    (exec_args : Option Command) where
  -- An accepted plan has its ports in order.
  plan_server-AscendsFrom :
      {p : Plan}
      → plan_server look_path load_ssh_authorized_keys f spec exec_args ≡ ok p
      → AscendsFrom 0 p.ports
  unfolding plan_server
  plan_server-AscendsFrom {p} e =
      Holds-ok (λ (q : Plan). AscendsFrom 0 q.ports) _
        (Holds-after (λ (q : Plan). AscendsFrom 0 q.ports) InOrder (parse_spec f.ssh_enabled spec) _
          (spec_result (parse_port_set f.ssh_enabled spec)
            (parse_port_set-AscendsFrom f.ssh_enabled spec))
          (λ r h. Holds->>= _ (resolve_command look_path exec_args r.1) _ (λ w.
            Holds->>= _ (add_files f w.1) _ (λ v. Holds->>= _ (check_ssh f w.0 v) _ (λ _.
              Holds->>= _ (authorized_keys look_path load_ssh_authorized_keys f) _ (λ ks. h))))))
        e

set_of_called : {H A : Type 0} (k : A → Option H) (a : A) → is_set (ask (some k) a) ≡ is_set (k a)
unfolding ask
set_of_called k a = elim (Option-cases (k a)) [ inl e ↦ rw e refl | inr (h, e) ↦ rw e refl ]

set_of_listener :
    {H : Type 0} (o : Option Listener) (t : Option (Target H))
    → is_set (listener_or o t) ≡ (is_set o || is_set t)
unfolding listener_or
set_of_listener none t = refl
set_of_listener (some ln) t = refl

forward_set :
    (b : Bool) (dst : AddrPort)
    → is_set (ask (if b then some (λ (d : AddrPort). some (forward_to d)) else none) dst) ≡ b
unfolding ask
forward_set true dst = refl
forward_set false dst = refl

-- A started server with the configuration of a plan.
abbrev pub with_plan : Plan → Server Handler Handler → Server Handler Handler
with_plan p s = record s { config = server_config p }

module _ (p : Plan) (s : Server Handler Handler) (dst : AddrPort) where
  handler_set : is_set (get_tcp_handler_for_flow dst (with_plan p s)) ≡ (
      if addr_eq dst.addr s.own_addr
      then is_set (lookup dst.port s.tcp_listeners) || is_set (on_tcp p dst.port)
      else p.services.exit_node)
  unfolding get_tcp_handler_for_flow server_config listener_for_port
  handler_set = elim (Bool-cases (addr_eq dst.addr s.own_addr)) [
    | inl own ↦ rw own (
        set_of_listener (lookup dst.port s.tcp_listeners) (ask (some (on_tcp p)) dst.port)
        ∙ ap (λ b. is_set (lookup dst.port s.tcp_listeners) || b)
            (set_of_called (on_tcp p) dst.port))
    | inr away ↦ rw away (forward_set p.services.exit_node (forwarded dst))
  ]

config_parts :
    (p : Plan)
    → (is_set (server_config p).on_tcp_forward ≡ p.services.exit_node)
      × ((server_config p).served_tcp_ports ≡ served_tcp_ports p)
unfolding server_config
config_parts p =
    (elim (Bool-cases p.services.exit_node) [ inl e ↦ rw e refl | inr e ↦ rw e refl ], refl)

module _ (look_path : List ℕ → Option (List ℕ))
    (load_ssh_authorized_keys : List ℕ → Option (List (List ℕ))) where
  -- Whatever command line is accepted, and whatever listeners are open: the packet filter of the
  -- server names a TCP flow from one IPv6 address to another exactly if the flow gets a handler.
  pub planned_filter_agrees :
      (f : Flags) (spec : List ℕ) (exec_args : Option Command) (p : Plan)
      (s : Server Handler Handler) (src : Addr) (dst : AddrPort)
      → plan_server look_path load_ssh_authorized_keys f spec exec_args ≡ ok p
      → Fits src
      → Fits dst.addr
      → dst.port ≤ 65535
      → is_v6 src ≡ true
      → is_v6 dst.addr ≡ true
      → covers (build_filter_locked (with_plan p s)) tcp src dst
        ≡ is_set (get_tcp_handler_for_flow dst (with_plan p s))
  planned_filter_agrees f spec exec_args p s src dst e fs fd le vs vd =
      rw
        (
          covers_tcp (with_plan p s) src dst fs fd le,
          handler_set p s dst,
          (config_parts p).0,
          (config_parts p).1,
          vs,
          vd,
          served-on_tcp p dst.port
              (plan_server-AscendsFrom look_path load_ssh_authorized_keys f spec exec_args e),
        )
        (ground (arith, on_tcp-given p dst.port))
