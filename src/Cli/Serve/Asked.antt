-- ===== src/Cli/Serve/Asked.antt =====
-- What a command line of server asks for, and the reasons to refuse one.
use tailcat_quic.Base.{
  ℕ, ◌≡◌, Bool, true, false, not, ◌&&◌, ◌||◌, Option, none, some, List, [], ◌∷◌,
}
use tailcat_quic.Text.{is_empty}
use tailcat_quic.Cli.{Services, PortSet}
use tailcat_quic.Cli.Serve.{
  Flags, ServeError, bad_spec, no_command, exec_not_found, exec_needs_command, files_need_ssh,
  both_ssh, ssh_needs_keys, keys_with_no_auth, keys_need_ssh, files_with_command, keys_unsupported,
  bad_keys, Command, Plan, has_shell, is_given,
}

-- The command that server runs for the arguments after `--`: the program found for the first, with the
-- others as they are.
abbrev pub IsCommand : (List ℕ → Option (List ℕ)) → Option Command → Option Command → Type 0
IsCommand look_path none command = command ≡ none
IsCommand look_path (some []) command = ⊥
IsCommand look_path (some (w ∷ ws)) command =
    (exe : List ℕ) × (look_path w ≡ some exe) × (command ≡ some (exe ∷ ws))

-- The authorized keys: all that are loaded for the flag, by whether it is empty.
abbrev pub AreKeys : Option (List (List ℕ)) → Bool → List (List ℕ) → Type 0
AreKeys loaded true keys = keys ≡ []
AreKeys loaded false keys = loaded ≡ some keys

-- The plan that a specification of ports and services and the flags ask for.
pub record IsAsked (look_path : List ℕ → Option (List ℕ))
    (load_ssh_authorized_keys : List ℕ → Option (List (List ℕ))) (f : Flags)
    (exec_args : Option Command) (s : PortSet) (v : Services) (p : Plan) : Type 0 where
  pub ports : p.ports ≡ s
  pub ssh : p.services.ssh ≡ v.ssh
  pub no_auth_ssh : p.services.no_auth_ssh ≡ v.no_auth_ssh
  pub exit_node : p.services.exit_node ≡ v.exit_node
  pub files : p.services.files ≡ (v.files || not (is_empty f.files))
  pub exec : p.services.exec ≡ (v.exec || (is_given exec_args && not (has_shell v)))
  pub command : IsCommand look_path exec_args p.exec_args
  -- One kind of login, and authorized keys exactly for the one that checks them.
  pub one_login : (v.ssh && v.no_auth_ssh) ≡ false
  pub checks_keys : v.ssh ≡ not (is_empty f.ssh_authorized_keys)
  pub keys :
      AreKeys
        (load_ssh_authorized_keys f.ssh_authorized_keys)
        (is_empty f.ssh_authorized_keys)
        p.ssh_authorized_keys
  -- A command that is forced on SSH sessions is all that they can run.
  pub forced : (has_shell v && (is_given exec_args && p.services.files)) ≡ false
  pub has_command : (v.exec && not (is_given exec_args)) ≡ false

module _ (look_path : List ℕ → Option (List ℕ))
    (load_ssh_authorized_keys : List ℕ → Option (List (List ℕ))) where
  module _ (f : Flags) (args : Option Command) (v : Services) where
    -- Why a command line is refused.
    abbrev pub Explains : ServeError → Type 0
    Explains (bad_spec e) = ⊥
    Explains no_command = args ≡ some []
    Explains exec_not_found =
        (w : List ℕ) × (ws : Command) × (args ≡ some (w ∷ ws)) × (look_path w ≡ none)
    Explains exec_needs_command = (args ≡ none) × (v.exec ≡ true)
    Explains files_need_ssh = (is_empty f.files ≡ false) × (f.ssh_enabled ≡ false)
    Explains both_ssh = (v.ssh ≡ true) × (v.no_auth_ssh ≡ true)
    Explains ssh_needs_keys = (v.ssh ≡ true) × (is_empty f.ssh_authorized_keys ≡ true)
    Explains keys_with_no_auth = (v.no_auth_ssh ≡ true) × (is_empty f.ssh_authorized_keys ≡ false)
    Explains keys_need_ssh = (v.ssh ≡ false) × (is_empty f.ssh_authorized_keys ≡ false)
    Explains files_with_command =
        (has_shell v ≡ true) × (is_given args ≡ true) × ((v.files || not (is_empty f.files)) ≡ true)
    Explains keys_unsupported = (is_empty f.ssh_authorized_keys ≡ false) × (f.ssh_enabled ≡ false)
    Explains bad_keys = load_ssh_authorized_keys f.ssh_authorized_keys ≡ none
