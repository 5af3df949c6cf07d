-- ===== src/Cli/Ssh.antt =====
-- clientSSHMode, validatedSSHPort, refuseWideOpenDNS, probeStrangerSSH and sshDestHost of
-- cmd/tailcat/ssh.go. net/netip, SHA-256, the lookup of TXT records, the search in $PATH and the network
-- are parameters.
pub mod Runs
use tailcat_quic.Base.{
  ltb, leb, ◌==◌, if◌then◌else◌, ltb→lt, lt→ltb, leb→le, ==_iff, Bool-cases, Option-cases, Eq, beq,
  beq_refl, eq_of_beq, not_rejected, was_required, or-eq_false, not-eq_false, some-eq, length,
  get_elem?, get_or, take, drop, replicate, length-append, take-append-drop, length-take,
  length-drop, take-length_append, drop-length_append, take-of_length, drop-of_length,
  length-replicate, All, any, take-two_fields, take-drop-two_fields, drop-drop-two_fields,
  three_fields, drop-drop, four_fields, codes, bytes_eq, bytes_eq_sound, bytes_eq_self,
  bytes_eq_iff, slice, has_prefix, IsByte, lookup, insert, erase, lookup-insert, lookup-erase,
  length-erase-le, length-erase-present, length-insert-absent, ℕ, zero, suc, ◌+◌, ◌-◌, ◌*◌, ◌/◌,
  ◌%◌, ◌^◌, ◌≤◌, ◌<◌, max, min, compare, Ordering, ◌≡◌, refl, sym, ap, ap₂, ◌∙◌, subst, ◌≢◌, ◌↔◌,
  ◌⊎◌, inl, inr, Bool, true, false, not, ◌&&◌, ◌||◌, Option, none, some, List, [], ◌∷◌, ◌++◌, map,
  append_assoc, append-nil, arith, ℕ_discrete,
}
use tailcat_quic.Results.{Result, ok, err, ◌>>=◌, ◌>>◌, reject}
use tailcat_quic.Text.{cut, parse_uint16, format_uint, is_empty}
use tailcat_quic.Keys.{KeyCodec}
use tailcat_quic.Address.{Encoding}
use tailcat_quic.NetAddr.{Addr, AddrPort}
use tailcat_quic.Secret.Hex.{hex_encode}
use tailcat_quic.Cli.Names.{validated_addr}
use tailcat_quic.Cli.Quote.{ssh_proxy_command}

-- What the SSH and cp commands call of net/netip and crypto/sha256.
pub record SshNames : Type 0 where
  pub parse_ip : List ℕ → Option Addr
  pub parse_addr_port : List ℕ → Option AddrPort
  pub addr_port_string : AddrPort → List ℕ
  pub sha256 : List ℕ → List ℕ

-- The reasons for which ssh and cp end without running a client.
pub data SshError : Type 0 where
  usage invalid_port invalid_address wide_open no_client unsafe_argument : SshError
  servers_differ no_remote : SshError

-- The flags and the environment that clientSSHMode and clientCPMode read.
pub record SshFlags : Type 0 where
  pub windows : Bool
  pub default_url : List ℕ
  pub derp_map_url : List ℕ
  pub key_name : List ℕ
  pub exe : List ℕ
  pub dev_null : List ℕ
  pub client : Option (List ℕ)

module _ (names : SshNames) where
  abbrev positive : Option ℕ → Option ℕ
  positive none = none
  positive (some p) = if p == 0 then none else some p

  abbrev with_own_port : Option AddrPort → Option (List ℕ)
  with_own_port none = none
  with_own_port (some a) = if a.port == 0 then none else some (names.addr_port_string a)

  abbrev with_port_22 : List ℕ → Option Addr → Option (List ℕ)
  with_port_22 v (some ip) = some (names.addr_port_string (record { addr = ip; port = 22 }))
  with_port_22 v none = with_own_port (names.parse_addr_port v)

  abbrev port_or_ip : List ℕ → Option ℕ → Option (List ℕ)
  port_or_ip v (some p) = some (format_uint p)
  port_or_ip v none = with_port_22 v (names.parse_ip v)

  -- validatedSSHPort
  unfoldable pub validated_ssh_port : List ℕ → Option (List ℕ)
  unfolding parse_uint16 format_uint
  validated_ssh_port v = port_or_ip v (positive (parse_uint16 v))

  -- sshDestHost
  unfoldable pub ssh_dest_host : List ℕ → List ℕ
  ssh_dest_host addr = codes "tailcat-" ++ hex_encode (take 8 (names.sha256 addr))

-- How the probe's connection goes: the dial fails, the local user is unknown, the handshake is
-- refused, or it succeeds.
pub data ProbeEvent : Type 0 where
  dial_failed user_unknown handshake_refused handshake_done : ProbeEvent

-- The dial of probeStrangerSSH.
pub data ProbeDial : Type 0 where
  dial_address : AddrPort → ProbeDial
  dial_port : ℕ → ProbeDial
  bad_probe_port : ProbeDial

unfoldable pub probe_dial : SshNames → List ℕ → ProbeDial
unfolding parse_uint16
probe_dial names port = elim (names.parse_addr_port port) [
  | some a ↦ dial_address a
  | none ↦ elim (parse_uint16 port) [ some p ↦ dial_port p | none ↦ bad_probe_port ]
]

-- probeStrangerSSH: whether the server is open, or `none` for an error.
unfoldable pub probe_stranger_ssh : SshNames → (ProbeDial → ProbeEvent) → List ℕ → Option Bool
unfolding probe_dial
probe_stranger_ssh names run port = judge (probe_dial names port)
  where
    probed : ProbeEvent → Option Bool
    probed dial_failed = none
    probed user_unknown = none
    probed handshake_refused = some false
    probed handshake_done = some true

    judge : ProbeDial → Option Bool
    judge bad_probe_port = none
    judge (dial_address a) = probed (run (dial_address a))
    judge (dial_port p) = probed (run (dial_port p))

-- refuseWideOpenDNS: whether the process exits.
unfoldable pub refuses_wide_open : SshNames → (ProbeDial → ProbeEvent) → List ℕ → Bool
unfolding probe_stranger_ssh
refuses_wide_open names run port = elim (probe_stranger_ssh names run port) [
  | none ↦ false
  | some open_door ↦ open_door
]

abbrev pub or_error {ℓ κ} : {E : Type ℓ} {A : Type κ} → E → Option A → Result E A
or_error e none = err e
or_error e (some a) = ok a

-- The options that ssh and scp get before the proxy command.
abbrev pub no_host_keys : SshFlags → List (List ℕ)
no_host_keys f =
    codes "-o"
    ∷ (codes "UpdateHostKeys no"
        ∷ (codes "-o"
            ∷ (codes "StrictHostKeyChecking no"
                ∷ (codes "-o"
                    ∷ ((codes "UserKnownHostsFile " ++ f.dev_null)
                        ∷ (codes "-o" ∷ (codes "LogLevel ERROR" ∷ [])))))))

-- The user and the address of a destination: what strings.Cut leaves at the first @.
unfoldable pub split_user : List ℕ × Option (List ℕ) → List ℕ × List ℕ
split_user (s, none) = ([], s)
split_user (user, some addr) = (user, addr)

abbrev pub at_user : List ℕ → List ℕ → List ℕ
at_user user host = if is_empty user then host else user ++ (b'@' ∷ host)

-- The arguments of the ssh client.
abbrev pub ssh_argv :
    SshNames → SshFlags → (user addr exe proxy : List ℕ) → List (List ℕ) → List (List ℕ)
ssh_argv names f user addr exe proxy command =
    exe
    ∷ (no_host_keys f
        ++ (codes "-o"
            ∷ ((codes "ProxyCommand=" ++ proxy)
                ∷ (codes "--" ∷ (at_user user (ssh_dest_host names addr) ∷ command)))))

module _ {N D : Type 0} (node : KeyCodec N) (disco : KeyCodec D) (coding : Encoding N D)
    (lookup_txt : List ℕ → Option (List (List ℕ))) (names : SshNames)
    (run_probe : List ℕ → ProbeDial → ProbeEvent) where
  -- clientSSHMode for a destination: the arguments with which the client is run.
  unfoldable pub ssh_to :
      SshFlags → Bool → List ℕ → List ℕ × List ℕ → List (List ℕ) → Result SshError (List (List ℕ))
  unfolding refuses_wide_open ssh_dest_host ssh_proxy_command validated_addr
  ssh_to f skip_dns_check port (user, addr_arg) command = do
    target ← or_error invalid_address (validated_addr node disco coding lookup_txt addr_arg).result
    reject (target.1 && (not skip_dns_check && refuses_wide_open names (run_probe target.0) port))
        wide_open
    exe ← or_error no_client f.client
    proxy ←
        or_error unsafe_argument
          (ssh_proxy_command f.windows f.default_url f.exe f.key_name f.derp_map_url target.0 port)
    ok (ssh_argv names f user target.0 exe proxy command)

  -- clientSSHMode
  unfoldable pub client_ssh_mode :
      SshFlags → Bool → List ℕ → List (List ℕ) → Result SshError (List (List ℕ))
  unfolding validated_ssh_port split_user cut ssh_to
  client_ssh_mode f skip_dns_check port [] = err usage
  client_ssh_mode f skip_dns_check port (dst ∷ command) = do
    p ← or_error invalid_port (validated_ssh_port names port)
    ssh_to f skip_dns_check p (split_user (cut b'@' dst)) command
