-- ===== src/Cli/Cp.antt =====
-- splitRemoteArg and clientCPMode of cmd/tailcat/cp.go.
use tailcat_quic.Base.{
  ltb, leb, if◌then◌else◌, length, take, drop, codes, bytes_eq, ℕ, ◌+◌, Bool, true, false, not,
  ◌&&◌, Option, none, some, List, [], ◌∷◌, ◌++◌, map,
}
use tailcat_quic.Results.{Result, ok, err, ◌>>=◌, ◌>>◌, reject}
use tailcat_quic.Text.{index_byte, contains_any, is_empty}
use tailcat_quic.Keys.{KeyCodec}
use tailcat_quic.Address.{Encoding}
use tailcat_quic.Cli.Names.{validated_addr}
use tailcat_quic.Cli.Quote.{ssh_proxy_command}
use tailcat_quic.Cli.Ssh.{
  SshNames, SshError, usage, invalid_port, invalid_address, no_client, unsafe_argument,
  servers_differ, no_remote, SshFlags, validated_ssh_port, ssh_dest_host, or_error, no_host_keys,
}

abbrev at_colon : List ℕ → Option ℕ → Option (List ℕ × List ℕ)
at_colon arg none = none
at_colon arg (some i) =
    if leb i 1
    then none
    else if contains_any (codes "/\\") (take i arg)
    then none
    else some (take i arg, drop (i + 1) arg)

-- splitRemoteArg
unfoldable pub split_remote_arg : List ℕ → Option (List ℕ × List ℕ)
unfolding index_byte contains_any
split_remote_arg arg = at_colon arg (index_byte b':' arg)

-- One argument of the first loop, with the server named so far.
unfoldable pub same_server : List ℕ → Option (List ℕ × List ℕ) → Result SshError (List ℕ)
same_server addr none = ok addr
same_server addr (some (host, path)) =
    if not (is_empty addr) && not (bytes_eq host addr) then err servers_differ else ok host

-- The first loop: the server that the remote arguments name.
unfoldable pub find_server : List ℕ → List (List ℕ) → Result SshError (List ℕ)
unfolding same_server split_remote_arg
find_server addr [] = ok addr
find_server addr (arg ∷ args) = same_server addr (split_remote_arg arg) >>= λ a. find_server a args

-- The second loop: an argument for scp.
unfoldable pub scp_arg : List ℕ → List ℕ → Option (List ℕ × List ℕ) → List ℕ
scp_arg host arg none = arg
scp_arg host arg (some (_, path)) = host ++ (b':' ∷ path)

unfoldable pub scp_args : List ℕ → List (List ℕ) → List (List ℕ)
unfolding scp_arg split_remote_arg
scp_args host args = map (λ arg. scp_arg host arg (split_remote_arg arg)) args

abbrev flag_if : Bool → List ℕ → List (List ℕ)
flag_if true flag = flag ∷ []
flag_if false flag = []

module _ {N D : Type 0} (node : KeyCodec N) (disco : KeyCodec D) (coding : Encoding N D)
    (lookup_txt : List ℕ → Option (List (List ℕ))) (names : SshNames)
    (supports_sftp_flag : List ℕ → Bool) where
  -- clientCPMode: the arguments with which scp is run.
  unfoldable pub client_cp_mode :
      SshFlags
      → (recursive preserve : Bool) → List ℕ
      → List (List ℕ)
      → Result SshError (List (List ℕ))
  unfolding find_server scp_args validated_ssh_port ssh_dest_host ssh_proxy_command validated_addr
  client_cp_mode f recursive preserve port args = do
    reject (ltb (length args) 2) usage
    p ← or_error invalid_port (validated_ssh_port names port)
    named ← find_server [] args
    reject (is_empty named) no_remote
    target ← or_error invalid_address (validated_addr node disco coding lookup_txt named).result
    exe ← or_error no_client f.client
    proxy ←
        or_error unsafe_argument
          (ssh_proxy_command f.windows f.default_url f.exe f.key_name f.derp_map_url target.0 p)
    ok (
        exe
        ∷ (flag_if (supports_sftp_flag exe) (codes "-s")
            ++ (no_host_keys f
                ++ (codes "-o"
                    ∷ ((codes "ProxyCommand=" ++ proxy)
                        ∷ (flag_if recursive (codes "-r")
                            ++ (flag_if preserve (codes "-p")
                                ++ (codes "--"
                                    ∷ scp_args (ssh_dest_host names target.0) args))))))))
