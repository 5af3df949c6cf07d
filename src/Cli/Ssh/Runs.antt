-- ===== src/Cli/Ssh/Runs.antt =====
-- What clientSSHMode runs.
use tailcat_quic.Base.{ℕ, ◌≡◌, Bool, true, false, not, ◌&&◌, Option, some, List}
use tailcat_quic.Text.{contains_byte}
use tailcat_quic.Keys.{KeyCodec}
use tailcat_quic.Address.{Encoding}
use tailcat_quic.Cli.Names.{validated_addr, is_addr}
use tailcat_quic.Cli.Quote.{ssh_proxy_command, proxy_args}
use tailcat_quic.Cli.Quote.Shell.{proxy_command_words}
use tailcat_quic.Cli.Ssh.{
  ssh_argv, SshNames, SshError, SshFlags, ProbeDial, ProbeEvent, refuses_wide_open,
  validated_ssh_port,
}

-- The command line of the system's ssh for a destination `user@arg` and the value of --port: the
-- argument's address is a connection code, the host name is a label that is no option, and the proxy
-- command runs the program again with that code and port.
pub record Runs {N D : Type 0} (node : KeyCodec N) (disco : KeyCodec D) (coding : Encoding N D)
    (lookup_txt : List ℕ → Option (List (List ℕ))) (names : SshNames)
    (run_probe : List ℕ → ProbeDial → ProbeEvent) (f : SshFlags) (skip : Bool)
    (port_flag user arg : List ℕ) (command argv : List (List ℕ)) : Type 0 where
  pub exe : List ℕ
  pub addr : List ℕ
  pub port : List ℕ
  pub proxy : List ℕ
  pub client : f.client ≡ some exe
  pub valid_port : validated_ssh_port names port_flag ≡ some port
  -- An argument with a dot is looked up in public DNS.
  pub named :
      (validated_addr node disco coding lookup_txt arg).result ≡ some (addr, contains_byte b'.' arg)
  pub parses : is_addr node disco coding addr ≡ true
  -- A server found in DNS lets no stranger log in, unless the probe is skipped.
  pub guarded :
      (contains_byte b'.' arg && (not skip && refuses_wide_open names (run_probe addr) port))
      ≡ false
  pub arguments : argv ≡ ssh_argv names f user addr exe proxy command
  pub child :
      proxy_command_words proxy
      ≡ some (proxy_args f.default_url f.exe f.key_name f.derp_map_url addr port)

module _ {N D : Type 0} (node : KeyCodec N) (disco : KeyCodec D) (coding : Encoding N D)
    (lookup_txt : List ℕ → Option (List (List ℕ))) (names : SshNames)
    (run_probe : List ℕ → ProbeDial → ProbeEvent) where
  abbrev Whatever : SshError → Type 0
  Whatever e = Unit {0}

  abbrev proxy_of : SshFlags → List ℕ → List ℕ → Option (List ℕ)
  proxy_of f addr port =
      ssh_proxy_command f.windows f.default_url f.exe f.key_name f.derp_map_url addr port

  module _ (f : SshFlags) (posix : f.windows ≡ false) (skip : Bool) (port_flag port : List ℕ)
      (valid : validated_ssh_port names port_flag ≡ some port) (user arg : List ℕ)
      (command : List (List ℕ)) where
    abbrev Q : List (List ℕ) → Type 0
    Q argv =
        Runs node disco coding lookup_txt names run_probe f skip port_flag user arg command argv

    -- The address that the argument names, and whether it comes from DNS.
    abbrev IsTarget : List ℕ × Bool → Type 0
    IsTarget t = (validated_addr node disco coding lookup_txt arg).result ≡ some t
