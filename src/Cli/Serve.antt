-- ===== src/Cli/Serve.antt =====
-- server of cmd/tailcat/tailcat.go: which combinations of services and flags are accepted, and what
-- the accepted server then serves. log.Fatal is an error. The lookup of a program in $PATH and the
-- loading of the authorized keys are parameters.
pub mod Asked
pub mod Accepted
pub mod Agreement
pub mod Filtered
use tailcat_quic.Base.{
  ltb, leb, ◌==◌, if◌then◌else◌, ltb→lt, lt→ltb, leb→le, ==_iff, Bool-cases, Option-cases, Eq, beq,
  beq_refl, eq_of_beq, not_rejected, was_required, or-eq_false, not-eq_false, some-eq, length,
  get_elem?, get_or, take, drop, replicate, length-append, take-append-drop, length-take,
  length-drop, take-length_append, drop-length_append, take-of_length, drop-of_length,
  length-replicate, All, any, take-two_fields, take-drop-two_fields, drop-drop-two_fields,
  three_fields, drop-drop, four_fields, codes, bytes_eq, bytes_eq_sound, bytes_eq_self,
  bytes_eq_iff, slice, has_prefix, IsByte, lookup, insert, erase, lookup-insert, lookup-erase,
  length-erase-le, length-erase-present, length-insert-absent, ℕ, zero, suc, ◌+◌, ◌-◌, ◌*◌, ◌/◌,
  ◌%◌, ◌^◌, ◌≤◌, ◌<◌, max, min, compare, Ordering, ◌≡◌, refl, sym, ap, ap₂, ◌∙◌, subst, ◌≢◌, ◌↔◌,
  ◌⊎◌, inl, inr, Bool, true, false, not, ◌&&◌, ◌||◌, Option, none, some, List, [], ◌∷◌, ◌++◌, map,
  append_assoc, append-nil, arith, ℕ_discrete,
}
use tailcat_quic.Results.{Result, ok, err, ◌>>=◌, ◌>>◌, reject}
use tailcat_quic.Text.{is_empty, split}
use tailcat_quic.NetAddr.{AddrPort}
use tailcat_quic.Service.{PortRange, Config}
use tailcat_quic.Cli.{Services, no_services, has_no_service, PortSet, has_port}
use tailcat_quic.Cli.Ports.{PortError, Parsed, parse_port_set}
use tailcat_quic.Cli.Ranges.{port_ranges}

abbrev pub Command : Type 0
Command = List (List ℕ)

-- --files and --ssh-authorized-keys, and the constant tailCatSSHEnabled.
pub record Flags : Type 0 where
  pub files : List ℕ
  pub ssh_authorized_keys : List ℕ
  pub ssh_enabled : Bool

-- The reasons for which server exits before it starts.
pub data ServeError : Type 0 where
  bad_spec : PortError → ServeError
  no_command exec_not_found exec_needs_command files_need_ssh : ServeError
  both_ssh ssh_needs_keys keys_with_no_auth keys_need_ssh files_with_command : ServeError
  keys_unsupported bad_keys : ServeError

-- What server has worked out before it looks for a relay.
pub record Plan : Type 0 where
  pub ports : PortSet
  pub services : Services
  pub exec_args : Option Command
  pub ssh_authorized_keys : List (List ℕ)

abbrev pub parse_spec : Bool → List ℕ → Result ServeError Parsed
parse_spec b spec = elim (parse_port_set b spec) [ ok r ↦ ok r | err e ↦ err (bad_spec e) ]

-- The ssh or no-auth-ssh service
abbrev pub has_shell : Services → Bool
has_shell v = v.ssh || v.no_auth_ssh

module _ (look_path : List ℕ → Option (List ℕ)) where
  -- execArgs[0] replaced by what exec.LookPath finds; the exec service unless SSH is to run the command.
  abbrev found :
      Services → Command → Option (List ℕ) → Result ServeError (Option Command × Services)
  found v ws none = err exec_not_found
  found v ws (some exe) = ok (some (exe ∷ ws), if has_shell v then v else record v { exec = true })

  unfoldable pub resolve_command :
      Option Command → Services → Result ServeError (Option Command × Services)
  resolve_command none v = if v.exec then err exec_needs_command else ok (none, v)
  resolve_command (some []) v = err no_command
  resolve_command (some (w ∷ ws)) v = found v ws (look_path w)

-- The files service of a --files flag.
unfoldable pub add_files : Flags → Services → Result ServeError Services
add_files f v =
    if is_empty f.files
    then ok v
    else (do reject (not f.ssh_enabled) files_need_ssh; ok (record v { files = true }))

abbrev pub is_given {ℓ} : {A : Type ℓ} → Option A → Bool
is_given none = false
is_given (some a) = true

-- The checks of the SSH services against the flags and the command.
unfoldable pub check_ssh : Flags → Option Command → Services → Result ServeError (Unit {0})
check_ssh f command v =
    let no_keys = is_empty f.ssh_authorized_keys in
    do
      reject (v.ssh && v.no_auth_ssh) both_ssh
      reject (v.ssh && no_keys) ssh_needs_keys
      reject (v.no_auth_ssh && not no_keys) keys_with_no_auth
      reject (not no_keys && not v.ssh) keys_need_ssh
      reject (has_shell v && (is_given command && v.files)) files_with_command

module _ (look_path : List ℕ → Option (List ℕ))
    (load_ssh_authorized_keys : List ℕ → Option (List (List ℕ))) where
  abbrev loaded : Option (List (List ℕ)) → Result ServeError (List (List ℕ))
  loaded none = err bad_keys
  loaded (some ks) = ok ks

  unfoldable pub authorized_keys : Flags → Result ServeError (List (List ℕ))
  authorized_keys f = if is_empty f.ssh_authorized_keys then ok [] else (do
    reject (not f.ssh_enabled) keys_unsupported
    loaded (load_ssh_authorized_keys f.ssh_authorized_keys))

  -- server, up to the choice of a relay.
  unfoldable pub plan_server : Flags → List ℕ → Option Command → Result ServeError Plan
  unfolding resolve_command add_files check_ssh authorized_keys
  plan_server f spec exec_args = do
    parsed ← parse_spec f.ssh_enabled spec
    resolved ← resolve_command look_path exec_args parsed.1
    v ← add_files f resolved.1
    check_ssh f resolved.0 v
    keys ← authorized_keys f
    ok (record {
      ports = parsed.0;
      services = v;
      exec_args = resolved.0;
      ssh_authorized_keys = keys;
    })

-- oneShotStdout
abbrev pub is_one_shot : Plan → Bool
is_one_shot p = length p.ports == 0 && has_no_service p.services

-- sshServices
abbrev pub has_ssh_server : Services → Bool
has_ssh_server v = v.ssh || (v.no_auth_ssh || v.files)

-- The ports given to portRanges.
abbrev pub ports_to_serve : Plan → List ℕ
ports_to_serve p =
    if has_ssh_server p.services && not (has_port 22 p.ports) then 22 ∷ p.ports else p.ports

-- Server.ServedTCPPorts, nil as `none`
unfoldable pub served_tcp_ports : Plan → Option (List PortRange)
served_tcp_ports p =
    if not (is_one_shot p) && (not p.services.exit_node && not p.services.exec)
    then port_ranges (ports_to_serve p)
    else none

-- The handlers that the closures return: the SSH server, the command, standard output, or a proxy to a
-- local port or to an exit-node destination.
pub data Handler : Type 0 where
  run_ssh run_exec copy_to_stdout : Handler
  forward_to_localhost : ℕ → Handler
  forward_to : AddrPort → Handler

-- The closure s.OnTCP
unfoldable pub on_tcp : Plan → ℕ → Option Handler
on_tcp p port =
    if port == 22 && has_ssh_server p.services
    then some run_ssh
    else if has_port port p.ports
    then some (forward_to_localhost port)
    else if p.services.exec
    then some run_exec
    else if p.services.exit_node
    then some (forward_to_localhost port)
    else if is_one_shot p
    then some copy_to_stdout
    else if not (has_port port p.ports)
    then none
    else some (forward_to_localhost port)

-- The fields of the tailcat.Server that the plan decides. OnUDP and ServedUDPPorts stay nil.
unfoldable pub server_config : Plan → Config Handler Handler
unfolding served_tcp_ports on_tcp
server_config p = record {
  on_tcp = some (on_tcp p);
  on_tcp_forward = if p.services.exit_node then some (λ dst. some (forward_to dst)) else none;
  on_udp = none;
  on_udp_forward = if p.services.exit_node then some (λ dst. some (forward_to dst)) else none;
  served_tcp_ports = served_tcp_ports p;
  served_udp_ports = none;
}

-- What one element of --allow makes of a server: AddAllowedClient of the zero key or of the key
-- read, and `none` for a text that is no key.
module _ {N : Type 0} (zero_key : N) (unmarshal_node_public : List ℕ → Option N) where
  abbrev allow_key : Option N → Option (List N) → Option (List N)
  allow_key (some k) (some ks) = some (k ∷ ks)
  allow_key _ _ = none

  unfoldable pub allow_each : List (List ℕ) → Option (List N)
  allow_each [] = some []
  allow_each (ks ∷ rest) =
      let more = allow_each rest in
      if bytes_eq ks (codes "none")
      then allow_key (some zero_key) more
      else allow_key (unmarshal_node_public ks) more

  -- The clients of the --allow flag, in the order of the calls of AddAllowedClient.
  unfoldable pub allowed_clients : List ℕ → Option (List N)
  unfolding allow_each
  allowed_clients [] = some []
  allowed_clients (c ∷ s) = allow_each (split b',' (c ∷ s))
