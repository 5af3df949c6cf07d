-- ===== src/Cli/KeySources/Loaded.antt =====
-- What loadSSHAuthorizedKeysFrom returns, and that a server takes it.
use tailcat_quic.Base.{
  if◌then◌else◌, codes, ℕ, ◌+◌, ◌≡◌, refl, sym, Bool, true, false, Option, none, some, List, [],
  ◌∷◌,
}
use tailcat_quic.Results.{Result, ok, err, ◌>>=◌, Holds, Holds-after, Holds-ok}
use tailcat_quic.Text.{split, trim_space, cut_suffix, is_empty}
use tailcat_quic.Login.{SshOptions, SshServer, ssh_conn_handler}
use tailcat_quic.Login.Keys.{
  AuthorizedKey, KeysError, ssh_public_key_handler, validate_ssh_authorized_keys,
}
use tailcat_quic.Login.Granted.{is_ok}
use tailcat_quic.Login.Accepts.{is_key_list, validate_ssh_authorized_keys_iff}
use tailcat_quic.Login.Served.{Serves, conn_served}
use tailcat_quic.Cli.KeySources.{
  Sources, SourceError, empty_source, invalid_username, fetch_failed, invalid_public_key,
  unreadable, invalid_text, invalid_texts, or_failure, is_github_username,
  looks_like_ssh_public_key, read_ssh_authorized_keys_file, fetch_github_ssh_keys, literal_text,
  file_text, account_text, source_text, or_invalid, load_texts, load_ssh_authorized_keys_from,
}

module _ (parse : List ℕ → Option AuthorizedKey) (host : Sources) (base_url : List ℕ) where
  -- The text of a file, or the source where there is none.
  abbrev IsTextOf : List ℕ → Option (List ℕ) → List ℕ → Type 0
  IsTextOf source (some content) text = text ≡ content
  IsTextOf source none text = text ≡ source

  abbrev FromAccount : List ℕ → Option (List ℕ) → List ℕ → Type 0
  FromAccount source (some user) text =
      (is_github_username user ≡ true)
      × (fetch_github_ssh_keys parse host base_url user ≡ some text)
  FromAccount source none text =
      IsTextOf source (read_ssh_authorized_keys_file parse host base_url source) text

  -- The text of a source: the keys of a valid account, a file, or, where there is no such file, the
  -- source itself.
  abbrev From : List ℕ → List ℕ → Type 0
  From source text = FromAccount source (cut_suffix (codes "@github") source) text

  from_literal :
      (n : ℕ) (source : List ℕ) (valid : Result KeysError (Unit {0}))
      → Holds (λ text. text ≡ source) (literal_text parse host base_url n source valid)
  from_literal n source (ok done) = refl
  from_literal n source (err e) = by_looks (looks_like_ssh_public_key source)
    where
      by_looks :
          (b : Bool)
          → Holds
              (λ text. text ≡ source)
              (if b then err (invalid_public_key n) else err (unreadable n))
      by_looks true = tt
      by_looks false = tt

  from_file :
      (n : ℕ) (source : List ℕ) (file : Option (List ℕ))
      → Holds (IsTextOf source file) (file_text parse host base_url n source file)
  from_file n source (some text) = refl
  from_file n source none = from_literal n source (validate_ssh_authorized_keys parse (source ∷ []))

  from_account :
      (n : ℕ) (source : List ℕ) (account : Option (List ℕ))
      → Holds (FromAccount source account) (account_text parse host base_url n source account)
  from_account n source none =
      from_file n source (read_ssh_authorized_keys_file parse host base_url source)
  from_account n source (some user) =
      by_name (is_github_username user) (fetch_github_ssh_keys parse host base_url user)
    where
      by_name :
          (valid : Bool) (fetched : Option (List ℕ))
          → Holds
              (λ text. (valid ≡ true) × (fetched ≡ some text))
              (if valid then or_failure (fetch_failed n) fetched else err (invalid_username n))
      by_name true (some text) = (refl, refl)
      by_name true none = tt
      by_name false fetched = tt

  source_text-From :
      (n : ℕ) (source : List ℕ) → Holds (From source) (source_text parse host base_url n source)
  unfolding source_text
  source_text-From n source =
      by_empty (is_empty source) (from_account n source (cut_suffix (codes "@github") source))
    where
      by_empty :
          (b : Bool)
          → Holds
              (From source)
              (account_text parse host base_url n source (cut_suffix (codes "@github") source))
          → Holds (From source) (
              if b
              then err (empty_source n)
              else account_text parse host base_url n source (cut_suffix (codes "@github") source))
      by_empty true h = tt
      by_empty false h = h

  -- One text for each source, in order, which comes from it and is a list of keys.
  abbrev pub Loaded : List (List ℕ) → List (List ℕ) → Type 0
  Loaded [] [] = Unit {0}
  Loaded [] (text ∷ texts) = true ≡ false
  Loaded (source ∷ sources) [] = true ≡ false
  Loaded (source ∷ sources) (text ∷ texts) =
      (From (trim_space source) text × (is_key_list parse (text ∷ []) ≡ true))
      × Loaded sources texts

  after_valid :
      (P : List (List ℕ) → Type 0) (f : KeysError → SourceError) (texts : List (List ℕ))
      (m : Result SourceError (List (List ℕ)))
      → (is_key_list parse texts ≡ true → Holds P m)
      → Holds P (
          or_invalid parse host base_url f (validate_ssh_authorized_keys parse texts) >>= λ done. m)
  after_valid P f texts m h =
      of_valid (validate_ssh_authorized_keys parse texts)
        (validate_ssh_authorized_keys_iff parse texts)
    where
      of_valid :
          (v : Result KeysError (Unit {0}))
          → is_ok v ≡ is_key_list parse texts
          → Holds P (or_invalid parse host base_url f v >>= λ done. m)
      of_valid (ok done) e = h (sym e)
      of_valid (err k) e = tt

  load_texts-Loaded :
      (n : ℕ) (sources : List (List ℕ))
      → Holds (Loaded sources) (load_texts parse host base_url n sources)
  unfolding load_texts
  load_texts-Loaded n [] = tt
  load_texts-Loaded n (source ∷ sources) =
      Holds-after (Loaded (source ∷ sources)) (From (trim_space source))
        (source_text parse host base_url n (trim_space source)) _
        (source_text-From n (trim_space source))
        (λ text from.
          after_valid (Loaded (source ∷ sources)) (invalid_text n) (text ∷ []) _ (λ valid.
            Holds-after (Loaded (source ∷ sources)) (Loaded sources)
              (load_texts parse host base_url (n + 1) sources) (λ texts. ok (text ∷ texts))
              (load_texts-Loaded (n + 1) sources) (λ texts loaded. ((from, valid), loaded))))

  load_valid :
      (source_list : List ℕ)
      → Holds
          (λ texts. Loaded (split b',' source_list) texts × (is_key_list parse texts ≡ true))
          (load_ssh_authorized_keys_from parse host base_url source_list)
  unfolding load_ssh_authorized_keys_from
  load_valid source_list =
      Holds-after
        (λ texts. Loaded (split b',' source_list) texts × (is_key_list parse texts ≡ true))
        (Loaded (split b',' source_list))
        (load_texts parse host base_url 1 (split b',' source_list)) _
        (load_texts-Loaded 1 (split b',' source_list))
        (λ texts loaded.
          after_valid (λ ts. Loaded (split b',' source_list) ts × (is_key_list parse ts ≡ true))
            invalid_texts texts (ok texts) (λ valid. (loaded, valid)))

  -- The keys that are loaded for a list of sources are one text for each of them, in order: that of
  -- the valid account, else of the file, else the source itself. Each text is a list of keys, and an
  -- SSH server that is given them and has host keys serves its connections, for these keys.
  pub load_then_serves :
      {F : Type 0} (source_list : List ℕ) (texts : List (List ℕ)) (opts : SshOptions F)
      (host_keys : List (List ℕ))
      → load_ssh_authorized_keys_from parse host base_url source_list ≡ ok texts
      → opts.authorized_keys ≡ some texts
      → Loaded (split b',' source_list) texts
        × (srv : SshServer F) × (ssh_conn_handler opts
              (ssh_public_key_handler parse opts.authorized_keys)
              (some host_keys)
            ≡ some srv)
        × Serves parse opts srv
  load_then_serves source_list texts opts host_keys e k =
      let (loaded, valid) =
        Holds-ok (λ ts. Loaded (split b',' source_list) ts × (is_key_list parse ts ≡ true))
          (load_ssh_authorized_keys_from parse host base_url source_list) (load_valid source_list)
          e in
      let (srv, s, serves) = conn_served parse opts texts host_keys k valid in
      (loaded, srv, s, serves)
