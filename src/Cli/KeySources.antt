-- ===== src/Cli/KeySources.antt =====
-- cmd/tailcat/ssh_authorized_keys.go: the sources of --ssh-authorized-keys. The files, the HTTP client,
-- url.PathEscape and ParseAuthorizedKey of x/crypto/ssh are parameters.
pub mod Loaded
use tailcat_quic.Base.{
  ltb, leb, ◌==◌, if◌then◌else◌, ltb→lt, lt→ltb, leb→le, ==_iff, Bool-cases, Option-cases, Eq, beq,
  beq_refl, eq_of_beq, not_rejected, was_required, or-eq_false, not-eq_false, some-eq, length,
  get_elem?, get_or, take, drop, replicate, length-append, take-append-drop, length-take,
  length-drop, take-length_append, drop-length_append, take-of_length, drop-of_length,
  length-replicate, All, any, take-two_fields, take-drop-two_fields, drop-drop-two_fields,
  three_fields, drop-drop, four_fields, codes, bytes_eq, bytes_eq_sound, bytes_eq_self,
  bytes_eq_iff, slice, has_prefix, IsByte, lookup, insert, erase, lookup-insert, lookup-erase,
  length-erase-le, length-erase-present, length-insert-absent, ℕ, zero, suc, ◌+◌, ◌-◌, ◌*◌, ◌/◌,
  ◌%◌, ◌^◌, ◌≤◌, ◌<◌, max, min, compare, Ordering, ◌≡◌, refl, sym, ap, ap₂, ◌∙◌, subst, ◌≢◌, ◌↔◌,
  ◌⊎◌, inl, inr, Bool, true, false, not, ◌&&◌, ◌||◌, Option, none, some, List, [], ◌∷◌, ◌++◌, map,
  append_assoc, append-nil, arith, ℕ_discrete,
}
use tailcat_quic.Results.{Result, ok, err, ◌>>=◌, ◌>>◌, reject}
use tailcat_quic.Text.{split, trim_space, trim_left, cut_suffix, is_empty, space_length}
use tailcat_quic.Login.Keys.{AuthorizedKey, KeysError, validate_ssh_authorized_keys}

-- maxSSHAuthorizedKeysSize
abbrev pub max_ssh_authorized_keys_size : ℕ
max_ssh_authorized_keys_size = 1048576

-- The errors, with the number of the source from 1 on.
pub data SourceError : Type 0 where
  empty_source invalid_username fetch_failed invalid_public_key unreadable : ℕ → SourceError
  invalid_text : ℕ → KeysError → SourceError
  invalid_texts : KeysError → SourceError

-- A host's files and the web: the content of a file, and the status code and the body of an answer.
pub record Sources : Type 0 where
  pub read_file : List ℕ → Option (List ℕ)
  pub get : List ℕ → Option (ℕ × Option (List ℕ))
  pub path_escape : List ℕ → List ℕ

abbrev is_alphanumeric : ℕ → Bool
is_alphanumeric c = (leb 48 c && leb c 57) || ((leb 65 c && leb c 90) || (leb 97 c && leb c 122))

-- The rest of a match of githubUsernameRx.
abbrev ends_alphanumeric : List ℕ → Bool
ends_alphanumeric [] = true
ends_alphanumeric (c ∷ []) = is_alphanumeric c
ends_alphanumeric (c ∷ (d ∷ s)) = (is_alphanumeric c || c == b'-') && ends_alphanumeric (d ∷ s)

-- githubUsernameRx.MatchString
unfoldable pub is_github_username : List ℕ → Bool
is_github_username [] = false
is_github_username (c ∷ s) = is_alphanumeric c && (leb (length s) 38 && ends_alphanumeric s)

-- The first of strings.Fields, or "" where there is none.
unfoldable pub first_field : List ℕ → List ℕ
unfolding trim_left
first_field s = until_space (trim_left s)
  where
    until_space : List ℕ → List ℕ
    until_space [] = []
    until_space (c ∷ s) =
        let rest = c ∷ until_space s in if space_length (c ∷ s) == 0 then rest else []

-- looksLikeSSHPublicKey
unfoldable pub looks_like_ssh_public_key : List ℕ → Bool
unfolding first_field
looks_like_ssh_public_key source =
    let first = first_field source in
    has_prefix first (codes "ssh-")
    || (has_prefix first (codes "ecdsa-") || has_prefix first (codes "sk-"))

-- io.ReadAll of a LimitReader of one more byte than allowed, and the test of the size.
abbrev pub limited : Option (List ℕ) → Option (List ℕ)
limited none = none
limited (some b) =
    let read = take (max_ssh_authorized_keys_size + 1) b in
    if ltb max_ssh_authorized_keys_size (length read) then none else some read

abbrev on_answer : Option (ℕ × Option (List ℕ)) → Option (List ℕ)
on_answer none = none
on_answer (some (status, body)) = if status == 200 then limited body else none

abbrev pub or_failure : {A : Type 0} → SourceError → Option A → Result SourceError A
or_failure e none = err e
or_failure e (some a) = ok a

module _ (parse : List ℕ → Option AuthorizedKey) (host : Sources) (base_url : List ℕ) where
  -- readSSHAuthorizedKeysFile
  unfoldable pub read_ssh_authorized_keys_file : List ℕ → Option (List ℕ)
  read_ssh_authorized_keys_file path = limited (host.read_file path)

  -- fetchGitHubSSHKeys
  unfoldable pub fetch_github_ssh_keys : List ℕ → Option (List ℕ)
  fetch_github_ssh_keys user =
      on_answer (host.get (base_url ++ (host.path_escape user ++ codes ".keys")))

  -- A source that is no file: a key, or neither.
  abbrev pub literal_text : ℕ → List ℕ → Result KeysError (Unit {0}) → Result SourceError (List ℕ)
  literal_text n source (ok done) = ok source
  literal_text n source (err e) =
      if looks_like_ssh_public_key source then err (invalid_public_key n) else err (unreadable n)

  abbrev pub file_text : ℕ → List ℕ → Option (List ℕ) → Result SourceError (List ℕ)
  file_text n source (some text) = ok text
  file_text n source none = literal_text n source (validate_ssh_authorized_keys parse (source ∷ []))

  abbrev pub account_text : ℕ → List ℕ → Option (List ℕ) → Result SourceError (List ℕ)
  account_text n source (some user) =
      if is_github_username user
      then or_failure (fetch_failed n) (fetch_github_ssh_keys user)
      else err (invalid_username n)
  account_text n source none = file_text n source (read_ssh_authorized_keys_file source)

  -- The text of the source of a number.
  unfoldable pub source_text : ℕ → List ℕ → Result SourceError (List ℕ)
  unfolding cut_suffix is_github_username read_ssh_authorized_keys_file fetch_github_ssh_keys
      looks_like_ssh_public_key validate_ssh_authorized_keys
  source_text n source =
      if is_empty source
      then err (empty_source n)
      else account_text n source (cut_suffix (codes "@github") source)

  abbrev pub or_invalid :
      (KeysError → SourceError) → Result KeysError (Unit {0}) → Result SourceError (Unit {0})
  or_invalid f (err e) = err (f e)
  or_invalid f (ok done) = ok done

  -- The loop over the sources from a number on.
  unfoldable pub load_texts : ℕ → List (List ℕ) → Result SourceError (List (List ℕ))
  unfolding source_text trim_space validate_ssh_authorized_keys
  load_texts n [] = ok []
  load_texts n (source ∷ sources) = do
    text ← source_text n (trim_space source)
    or_invalid (invalid_text n) (validate_ssh_authorized_keys parse (text ∷ []))
    texts ← load_texts (n + 1) sources
    ok (text ∷ texts)

  -- loadSSHAuthorizedKeysFrom
  unfoldable pub load_ssh_authorized_keys_from : List ℕ → Result SourceError (List (List ℕ))
  unfolding load_texts split validate_ssh_authorized_keys
  load_ssh_authorized_keys_from source_list = do
    texts ← load_texts 1 (split b',' source_list)
    or_invalid invalid_texts (validate_ssh_authorized_keys parse texts)
    ok texts
