-- ===== src/Cli/Serve/Accepted.antt =====
-- Which command lines server accepts, and why it refuses the others.
use tailcat_quic.Base.{
  if◌then◌else◌, ℕ, ◌≡◌, refl, sym, subst, Bool, true, false, not, ◌&&◌, ◌||◌, Option, none, some,
  List, [], ◌∷◌, arith,
}
use tailcat_quic.Results.{Result, ◌>>◌, ok, err, reject, Ends, Ends->>=, Ends-reject, Ends-if}
use tailcat_quic.Text.{is_empty}
use tailcat_quic.Cli.{Services, PortSet}
use tailcat_quic.Cli.Ports.{Parsed, PortError, parse_port_set}
use tailcat_quic.Cli.Serve.Asked.{IsCommand, AreKeys, IsAsked, Explains}
use tailcat_quic.Cli.Serve.{
  found, loaded, Flags, ServeError, bad_spec, exec_needs_command, files_need_ssh, both_ssh,
  ssh_needs_keys, keys_with_no_auth, keys_need_ssh, files_with_command, keys_unsupported, Command,
  Plan, has_shell, is_given, resolve_command, add_files, check_ssh, authorized_keys, parse_spec,
  plan_server,
}

-- What the command makes of the services.
record Resolved (look_path : List ℕ → Option (List ℕ)) (args : Option Command) (v : Services)
    (r : Option Command × Services) : Type 0 where
  command : IsCommand look_path args r.0
  given : is_given r.0 ≡ is_given args
  has_command : (v.exec && not (is_given args)) ≡ false
  ssh : r.1.ssh ≡ v.ssh
  no_auth_ssh : r.1.no_auth_ssh ≡ v.no_auth_ssh
  exit_node : r.1.exit_node ≡ v.exit_node
  files : r.1.files ≡ v.files
  exec : r.1.exec ≡ (v.exec || (is_given args && not (has_shell v)))

module _ (look_path : List ℕ → Option (List ℕ))
    (load_ssh_authorized_keys : List ℕ → Option (List (List ℕ))) (f : Flags) where
  abbrev Why : Option Command → Services → ServeError → Type 0
  Why = Explains look_path load_ssh_authorized_keys f

  found_lem :
      (w : List ℕ) (ws : Command) (v : Services) (o : Option (List ℕ))
      → look_path w ≡ o
      → Ends (Why (some (w ∷ ws)) v) (Resolved look_path (some (w ∷ ws)) v) (found look_path v ws o)
  found_lem w ws v none e = (w, ws, refl, e)
  found_lem w ws v (some exe) e = record {
    command = (exe, e, refl);
    given = refl;
    has_command = ground arith;
    ssh = ground arith;
    no_auth_ssh = ground arith;
    exit_node = ground arith;
    files = ground arith;
    exec = ground arith;
  }

  resolve_command_lem :
      (args : Option Command) (v : Services)
      → Ends (Why args v) (Resolved look_path args v) (resolve_command look_path args v)
  unfolding resolve_command
  resolve_command_lem none v =
      Ends-if (Why none v) (Resolved look_path none v) v.exec (err exec_needs_command)
        (ok (none, v)) (λ y. (refl, y))
        (λ n. record {
          command = refl;
          given = refl;
          has_command = ground arith;
          ssh = refl;
          no_auth_ssh = refl;
          exit_node = refl;
          files = refl;
          exec = ground arith;
        })
  resolve_command_lem (some []) v = refl
  resolve_command_lem (some (w ∷ ws)) v = found_lem w ws v (look_path w) refl

  authorized_keys_lem :
      (args : Option Command) (v : Services)
      → Ends
          (Why args v)
          (AreKeys
            (load_ssh_authorized_keys f.ssh_authorized_keys)
            (is_empty f.ssh_authorized_keys))
          (authorized_keys look_path load_ssh_authorized_keys f)
  unfolding authorized_keys
  authorized_keys_lem args v =
      by_flag (is_empty f.ssh_authorized_keys) refl (load_ssh_authorized_keys f.ssh_authorized_keys)
        refl
    where
      W : ServeError → Type 0
      W = Why args v

      P : Bool → List (List ℕ) → Type 0
      P = AreKeys (load_ssh_authorized_keys f.ssh_authorized_keys)

      all :
          (o : Option (List (List ℕ)))
          → load_ssh_authorized_keys f.ssh_authorized_keys ≡ o
          → Ends W (P false) (loaded look_path load_ssh_authorized_keys o)
      all none e = e
      all (some ks) e = e

      by_flag :
          (empty : Bool)
          → is_empty f.ssh_authorized_keys ≡ empty
          → (o : Option (List (List ℕ))) → load_ssh_authorized_keys f.ssh_authorized_keys ≡ o
          → Ends W (P empty) (
              if empty then ok [] else (do
                reject (not f.ssh_enabled) keys_unsupported
                loaded look_path load_ssh_authorized_keys o))
      by_flag true y o e = refl
      by_flag false y o e =
          Ends-reject W (P false) (not f.ssh_enabled) keys_unsupported
            (loaded look_path load_ssh_authorized_keys o) (λ n. (y, ground arith)) (λ n. all o e)

  module _ (args : Option Command) (s : PortSet) (v : Services) (r : Option Command × Services)
      (g : Resolved look_path args v r) where
    -- The services with those of --files.
    abbrev WithFiles : Services → Type 0
    WithFiles w = w ≡ (record r.1 { files = v.files || not (is_empty f.files) })

    add_files_lem : Ends (Why args v) WithFiles (add_files f r.1)
    unfolding add_files
    add_files_lem =
        Ends-if (Why args v) WithFiles (is_empty f.files) (ok r.1) _ (λ y. ground (arith, g.files))
          (λ n.
            Ends-reject (Why args v) WithFiles (not f.ssh_enabled) files_need_ssh _
              (λ e. (n, ground arith)) (λ e. ground (arith, g.files)))

    module _ (w : Services) (h : WithFiles w) where
      abbrev no_keys : Bool
      no_keys = is_empty f.ssh_authorized_keys

      abbrev Passes : Unit {0} → Type 0
      Passes _ =
          ((w.ssh && w.no_auth_ssh) ≡ false)
          × ((w.ssh && no_keys) ≡ false)
          × ((not no_keys && not w.ssh) ≡ false)
          × ((has_shell w && (is_given r.0 && w.files)) ≡ false)

      check_ssh_lem : Ends (Why args v) Passes (check_ssh f r.0 w)
      unfolding check_ssh
      check_ssh_lem =
          Ends-reject W Passes (w.ssh && w.no_auth_ssh) both_ssh _
            (λ e. ground (arith, g.ssh, g.no_auth_ssh))
            (λ a.
              Ends-reject W Passes (w.ssh && no_keys) ssh_needs_keys _ (λ e. ground (arith, g.ssh))
                (λ b.
                  Ends-reject W Passes (w.no_auth_ssh && not no_keys) keys_with_no_auth _
                    (λ e. ground (arith, g.no_auth_ssh))
                    (λ c.
                      Ends-reject W Passes (not no_keys && not w.ssh) keys_need_ssh _
                        (λ e. ground (arith, g.ssh))
                        (λ d.
                          last (has_shell w && (is_given r.0 && w.files))
                            (λ e. ground (arith, g.ssh, g.no_auth_ssh, g.given))
                            (λ e. (a, b, d, e))))))
        where
          W : ServeError → Type 0
          W = Why args v

          last :
              (t : Bool)
              → (t ≡ true → W files_with_command)
              → (t ≡ false → Passes tt)
              → Ends W Passes (reject t files_with_command)
          last true j k = j refl
          last false j k = k refl

      asked :
          (p : Plan)
          → Passes tt
          → AreKeys
              (load_ssh_authorized_keys f.ssh_authorized_keys)
              (is_empty f.ssh_authorized_keys)
              p.ssh_authorized_keys
          → p.ports ≡ s
          → p.services ≡ w
          → p.exec_args ≡ r.0
          → IsAsked look_path load_ssh_authorized_keys f args s v p
      asked p t k ep es ex = record {
        ports = ep;
        ssh = ground (arith, g.ssh);
        no_auth_ssh = ground (arith, g.no_auth_ssh);
        exit_node = ground (arith, g.exit_node);
        files = ground (arith, g.files);
        exec = ground (arith, g.exec);
        command = subst (IsCommand look_path args) (sym ex) g.command;
        one_login = ground (arith, g.ssh, g.no_auth_ssh);
        checks_keys = ground (arith, g.ssh);
        keys = k;
        forced = ground (arith, g.ssh, g.no_auth_ssh, g.given);
        has_command = g.has_command;
      }

  -- A command line whose specification parses is refused for a reason that holds, or gets the plan
  -- that it asks for: its ports and services, the command that is found for its arguments, one kind of
  -- login, and all authorized keys that its flag names, which it has exactly if logins are checked.
  pub plan_server_outcome :
      (spec : List ℕ) (args : Option Command) (s : PortSet) (v : Services)
      → parse_port_set f.ssh_enabled spec ≡ ok (s, v)
      → Ends
          (Explains look_path load_ssh_authorized_keys f args v)
          (IsAsked look_path load_ssh_authorized_keys f args s v)
          (plan_server look_path load_ssh_authorized_keys f spec args)
  unfolding plan_server
  plan_server_outcome spec args s v e =
      Ends->>= W (λ (a : Parsed). a ≡ (s, v)) Q (parse_spec f.ssh_enabled spec) _
        (spec_lem (parse_port_set f.ssh_enabled spec) e)
        (λ a ea. rw ea (
          Ends->>= W (Resolved look_path args v) Q (resolve_command look_path args v) _
            (resolve_command_lem args v)
            (λ r g.
              Ends->>= W (WithFiles args s v r g) Q (add_files f r.1) _ (add_files_lem args s v r g)
                (λ w h.
                  Ends->>= W (Passes args s v r g w h) Q (check_ssh f r.0 w) _
                    (check_ssh_lem args s v r g w h)
                    (λ u t.
                      Ends->>= W
                        (AreKeys (load_ssh_authorized_keys f.ssh_authorized_keys)
                          (is_empty f.ssh_authorized_keys))
                        Q (authorized_keys look_path load_ssh_authorized_keys f) _
                        (authorized_keys_lem args v)
                        (λ ks k. asked args s v r g w h _ t k refl refl refl))))))
    where
      W : ServeError → Type 0
      W = Why args v

      Q : Plan → Type 0
      Q = IsAsked look_path load_ssh_authorized_keys f args s v

      spec_lem :
          (r : Result PortError Parsed)
          → r ≡ ok (s, v)
          → Ends W
              (λ (a : Parsed). a ≡ (s, v))
              (elim r as (λ _. Result ServeError Parsed) [ ok a ↦ ok a | err x ↦ err (bad_spec x) ])
      spec_lem (ok a) h = cc
      spec_lem (err x) h = absurd (cc)
