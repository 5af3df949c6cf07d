-- ===== src/Login.antt =====
-- SSHConnHandler of tailcat_ssh.go, and sftpSubsystemHandler of tailcat_sftp.go: what an SSH connection
-- is served with. gliderssh, getHostKeys and the sessions themselves are parameters or not modelled.
pub mod Keys
pub mod Granted
pub mod Accepts
pub mod Served
use tailcat_quic.Base.{
  ltb, leb, ◌==◌, if◌then◌else◌, ltb→lt, lt→ltb, leb→le, ==_iff, Bool-cases, Option-cases, Eq, beq,
  beq_refl, eq_of_beq, not_rejected, was_required, or-eq_false, not-eq_false, some-eq, length,
  get_elem?, get_or, take, drop, replicate, length-append, take-append-drop, length-take,
  length-drop, take-length_append, drop-length_append, take-of_length, drop-of_length,
  length-replicate, All, any, take-two_fields, take-drop-two_fields, drop-drop-two_fields,
  three_fields, drop-drop, four_fields, codes, bytes_eq, bytes_eq_sound, bytes_eq_self,
  bytes_eq_iff, slice, has_prefix, IsByte, lookup, insert, erase, lookup-insert, lookup-erase,
  length-erase-le, length-erase-present, length-insert-absent, ℕ, zero, suc, ◌+◌, ◌-◌, ◌*◌, ◌/◌,
  ◌%◌, ◌^◌, ◌≤◌, ◌<◌, max, min, compare, Ordering, ◌≡◌, refl, sym, ap, ap₂, ◌∙◌, subst, ◌≢◌, ◌↔◌,
  ◌⊎◌, inl, inr, Bool, true, false, not, ◌&&◌, ◌||◌, Option, none, some, List, [], ◌∷◌, ◌++◌, map,
  append_assoc, append-nil, arith, ℕ_discrete,
}
use tailcat_quic.Results.{Result, ok, err}

-- SSHOptions of tailcat_files.go, and what it says of files. A nil slice of keys is `none`.
pub record SshOptions (F : Type 0) : Type 0 where
  pub shell : Bool
  pub exec : List (List ℕ)
  pub authorized_keys : Option (List (List ℕ))
  pub files : Option F

-- What sessions run: sessionHandler, execSessionHandler, or the refusal of a server of files.
pub data SessionHandler : Type 0 where
  login_shell : SessionHandler
  forced_command : List (List ℕ) → SessionHandler
  files_only : SessionHandler

-- newRootedSFTPServer and newFullSFTPServer
pub data SftpServer (F : Type 0) : Type 0 where
  rooted : F → SftpServer F
  whole_filesystem : SftpServer F

-- The fields of ssh.Server that the handler sets. `lets_anyone_in` is a NoClientAuthHandler.
pub record SshServer (F : Type 0) : Type 0 where
  pub handler : SessionHandler
  pub public_key_handler : Option (List ℕ → Bool)
  pub lets_anyone_in : Bool
  pub sftp : Option (SftpServer F)
  pub host_keys : List (List ℕ)

-- The switch over the handlers, by the options Exec and Shell.
abbrev pub choose_handler : List (List ℕ) → Bool → SessionHandler
choose_handler (arg ∷ args) shell = forced_command (arg ∷ args)
choose_handler [] false = files_only
choose_handler [] true = login_shell

abbrev pub is_nil : Option (List ℕ → Bool) → Bool
is_nil none = true
is_nil (some h) = false

module _ {F : Type 0} where
  -- sftpSubsystemHandler, by the options Files and Shell
  abbrev pub sftp_subsystem_handler : Option F → Bool → Option (SftpServer F)
  sftp_subsystem_handler none false = none
  sftp_subsystem_handler none true = some whole_filesystem
  sftp_subsystem_handler (some dir) shell = some (rooted dir)

  -- `if len(opts.Exec) > 0 { opts.Shell = false; opts.Files = nil }`
  abbrev pub only_exec : SshOptions F → List (List ℕ) → SshOptions F
  only_exec opts [] = opts
  only_exec opts (arg ∷ args) = record opts { shell = false; files = none }

  abbrev pub ssh_server : SshOptions F → Option (List ℕ → Bool) → List (List ℕ) → SshServer F
  ssh_server opts keys host_keys = record {
    handler = choose_handler opts.exec opts.shell;
    public_key_handler = keys;
    lets_anyone_in = is_nil keys;
    sftp = sftp_subsystem_handler opts.files opts.shell;
    host_keys = host_keys;
  }

  abbrev on_host_keys :
      SshOptions F → Option (List ℕ → Bool) → Option (List (List ℕ)) → Option (SshServer F)
  on_host_keys opts keys none = none
  on_host_keys opts keys (some host_keys) = some (ssh_server opts keys host_keys)

  abbrev on_auth :
      {E : Type 0}
      → SshOptions F
      → Result E (Option (List ℕ → Bool))
      → Option (List (List ℕ))
      → Option (SshServer F)
  on_auth opts (err e) host_keys = none
  on_auth opts (ok keys) host_keys = on_host_keys opts keys host_keys

  -- SSHConnHandler, by the results of sshPublicKeyHandler and getHostKeys: the server that handles a
  -- connection, or `none` where the connection is closed.
  unfoldable pub ssh_conn_handler :
      {E : Type 0}
      → SshOptions F
      → Result E (Option (List ℕ → Bool))
      → Option (List (List ℕ))
      → Option (SshServer F)
  ssh_conn_handler opts auth host_keys = on_auth (only_exec opts opts.exec) auth host_keys
