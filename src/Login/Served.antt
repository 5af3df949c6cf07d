-- ===== src/Login/Served.antt =====
-- What the keys of the options mean for the connections that SSHConnHandler serves.
use tailcat_quic.Base.{
  ℕ, ◌≡◌, refl, sym, ap, ◌∙◌, subst, Bool, true, false, not, ◌&&◌, ◌||◌, Option, none, some, List,
  [], ◌∷◌,
}
use tailcat_quic.Results.{Result, ok, err, Holds}
use tailcat_quic.Login.{
  SshOptions, SessionHandler, login_shell, forced_command, files_only, SshServer, SftpServer,
  rooted, whole_filesystem, is_nil, sftp_subsystem_handler, only_exec, ssh_server, choose_handler,
  ssh_conn_handler,
}
use tailcat_quic.Login.Keys.{AuthorizedKey, KeysError, has_no_options, ssh_public_key_handler}
use tailcat_quic.Login.Granted.{is_ok}
use tailcat_quic.Login.Accepts.{
  is_key_list, HandlerFor, ssh_public_key_handler-HandlerFor, is_ok-handler,
}

abbrev is_some : {A : Type 0} → Option A → Bool
is_some none = false
is_some (some a) = true

abbrev is_login_shell : SessionHandler → Bool
is_login_shell login_shell = true
is_login_shell files_only = false
is_login_shell (forced_command args) = false

abbrev is_whole : {F : Type 0} → Option (SftpServer F) → Bool
is_whole none = false
is_whole (some (rooted dir)) = false
is_whole (some whole_filesystem) = true

shell_chosen :
    (exec : List (List ℕ)) (shell : Bool)
    → is_login_shell (choose_handler exec shell) ≡ (has_no_options exec && shell)
shell_chosen [] true = refl
shell_chosen [] false = refl
shell_chosen (arg ∷ args) shell = refl

and-false : (b : Bool) → (b && false) ≡ false
and-false true = refl
and-false false = refl

module _ {F : Type 0} (parse : List ℕ → Option AuthorizedKey) where
  -- Strangers log in only where no keys are given; else a key does that a line lists.
  abbrev Logins : Option (List (List ℕ)) → SshServer F → Type 0
  Logins none srv = (srv.lets_anyone_in ≡ true) × (srv.public_key_handler ≡ none)
  Logins (some texts) srv =
      (srv.lets_anyone_in ≡ false) × HandlerFor parse (some texts) srv.public_key_handler

  -- A command excludes everything else, and only a server with a shell shows the whole filesystem.
  pub record Serves (opts : SshOptions F) (srv : SshServer F) : Type 0 where
    pub logins : Logins opts.authorized_keys srv
    pub shell : is_login_shell srv.handler ≡ (has_no_options opts.exec && opts.shell)
    pub sftp : is_some srv.sftp ≡ (has_no_options opts.exec && (is_some opts.files || opts.shell))
    pub whole :
        is_whole srv.sftp ≡ (has_no_options opts.exec && (not (is_some opts.files) && opts.shell))

  ssh_server-Logins :
      (keys : Option (List (List ℕ))) (o : SshOptions F) (handler : Option (List ℕ → Bool))
      (host_keys : List (List ℕ))
      → HandlerFor parse keys handler
      → Logins keys (ssh_server o handler host_keys)
  ssh_server-Logins none o handler host_keys h = (ap is_nil h, h)
  ssh_server-Logins (some texts) o handler host_keys (test, e, h) = (ap is_nil e, (test, e, h))

  sftp_offered :
      (files : Option F) (shell : Bool)
      → is_some (sftp_subsystem_handler files shell) ≡ (is_some files || shell)
  sftp_offered none true = refl
  sftp_offered none false = refl
  sftp_offered (some dir) shell = refl

  sftp_whole :
      (files : Option F) (shell : Bool)
      → is_whole (sftp_subsystem_handler files shell) ≡ (not (is_some files) && shell)
  sftp_whole none true = refl
  sftp_whole none false = refl
  sftp_whole (some dir) shell = refl

  ssh_server-Serves :
      (opts : SshOptions F) (exec : List (List ℕ)) (handler : Option (List ℕ → Bool))
      (host_keys : List (List ℕ))
      → opts.exec ≡ exec
      → Logins opts.authorized_keys (ssh_server (only_exec opts exec) handler host_keys)
      → Serves opts (ssh_server (only_exec opts exec) handler host_keys)
  ssh_server-Serves opts [] handler host_keys e l = record {
    logins = l;
    shell = shell_chosen opts.exec opts.shell;
    sftp =
        sftp_offered opts.files opts.shell
        ∙ sym (ap (λ x. has_no_options x && (is_some opts.files || opts.shell)) e);
    whole =
        sftp_whole opts.files opts.shell
        ∙ sym (ap (λ x. has_no_options x && (not (is_some opts.files) && opts.shell)) e);
  }
  ssh_server-Serves opts (arg ∷ args) handler host_keys e l = record {
    logins = l;
    shell =
        shell_chosen opts.exec false
        ∙ and-false (has_no_options opts.exec)
        ∙ sym (ap (λ x. has_no_options x && opts.shell) e);
    sftp = sym (ap (λ x. has_no_options x && (is_some opts.files || opts.shell)) e);
    whole = sym (ap (λ x. has_no_options x && (not (is_some opts.files) && opts.shell)) e);
  }

  -- A predicate of the server, if the connection is served.
  abbrev IfServed : (SshServer F → Type 0) → Option (SshServer F) → Type 0
  IfServed P none = Unit {0}
  IfServed P (some srv) = P srv

  served :
      (opts : SshOptions F) (auth : Result KeysError (Option (List ℕ → Bool)))
      (host_keys : Option (List (List ℕ)))
      → Holds (HandlerFor parse opts.authorized_keys) auth
      → IfServed (Serves opts) (ssh_conn_handler opts auth host_keys)
  unfolding ssh_conn_handler
  served opts (err e) host_keys h = tt
  served opts (ok handler) none h = tt
  served opts (ok handler) (some host_keys) h =
      ssh_server-Serves opts opts.exec handler host_keys refl
        (ssh_server-Logins opts.authorized_keys (only_exec opts opts.exec) handler host_keys h)

  -- A connection that is served without authorized keys lets anyone in; with them it lets nobody in
  -- without a key, and the keys that it accepts are those that a line of the texts lists alone and
  -- without options. Its sessions are login shells exactly if the options ask for a shell and no
  -- command, there is SFTP exactly if there is no command but files or a shell, and it shows the whole
  -- filesystem exactly if there is a shell and neither a command nor files.
  pub ssh_conn_handler-Serves :
      (opts : SshOptions F) (host_keys : Option (List (List ℕ))) (srv : SshServer F)
      → ssh_conn_handler opts (ssh_public_key_handler parse opts.authorized_keys) host_keys
        ≡ some srv
      → Serves opts srv
  ssh_conn_handler-Serves opts host_keys srv e = subst (IfServed (Serves opts)) e (
      served opts (ssh_public_key_handler parse opts.authorized_keys) host_keys
        (ssh_public_key_handler-HandlerFor parse opts.authorized_keys))

  of_accepted :
      (opts : SshOptions F) (auth : Result KeysError (Option (List ℕ → Bool)))
      (host_keys : List (List ℕ))
      → is_ok auth ≡ true
      → (srv : SshServer F) × (ssh_conn_handler opts auth (some host_keys) ≡ some srv)
  unfolding ssh_conn_handler
  of_accepted opts (ok handler) host_keys a =
      (ssh_server (only_exec opts opts.exec) handler host_keys, refl)
  of_accepted opts (err e) host_keys a = absurd (cc)

  -- With keys that are accepted and host keys, a connection is served.
  pub conn_served :
      (opts : SshOptions F) (texts host_keys : List (List ℕ))
      → opts.authorized_keys ≡ some texts
      → is_key_list parse texts ≡ true
      → (srv : SshServer F) × (ssh_conn_handler opts
            (ssh_public_key_handler parse opts.authorized_keys)
            (some host_keys)
          ≡ some srv)
        × Serves opts srv
  conn_served opts texts host_keys e h =
      let (srv, s) =
        of_accepted opts (ssh_public_key_handler parse opts.authorized_keys) host_keys
          is_accepted in
      (srv, s, ssh_conn_handler-Serves opts (some host_keys) srv s)
    where
      is_accepted : is_ok (ssh_public_key_handler parse opts.authorized_keys) ≡ true
      is_accepted =
          ap (λ keys. is_ok (ssh_public_key_handler parse keys)) e ∙ is_ok-handler parse texts ∙ h
