-- ===== src/Login/Keys.antt =====
-- tailcat_ssh_keys.go: the SSH keys that a server accepts. ParseAuthorizedKey of x/crypto/ssh is a
-- parameter, which maps a line to the key's wire format, its options and what follows it.
use tailcat_quic.Base.{
  if◌then◌else◌, any, codes, bytes_eq, has_prefix, ℕ, ◌+◌, Bool, true, false, not, ◌||◌, Option,
  none, some, List, [], ◌∷◌,
}
use tailcat_quic.Results.{Result, ok, err, ◌>>=◌}
use tailcat_quic.Text.{split, trim_space, trim_suffix, is_empty}

-- What gossh.ParseAuthorizedKey returns of a line.
pub record AuthorizedKey : Type 0 where
  pub key : List ℕ
  pub options : List (List ℕ)
  pub rest : List ℕ

-- The errors, with the numbers of the entry and of its line, from 1 on.
pub data KeysError : Type 0 where
  malformed trailing_data has_options : (entry line : ℕ) → KeysError
  no_public_keys : KeysError

-- `strings.TrimSpace(strings.TrimSuffix(line, "\r"))`
unfoldable pub key_line : List ℕ → List ℕ
unfolding trim_suffix trim_space
key_line line = trim_space (trim_suffix (13 ∷ []) line)

-- `line == "" || strings.HasPrefix(line, "#")`
abbrev pub is_skipped : List ℕ → Bool
is_skipped line = is_empty line || has_prefix line (codes "#")

abbrev pub has_no_options : List (List ℕ) → Bool
has_no_options [] = true
has_no_options (o ∷ os) = false

-- The map of the keys is the list of its elements.
unfoldable pub add_key :
    ℕ → ℕ → Option AuthorizedKey → List (List ℕ) → Result KeysError (List (List ℕ))
unfolding trim_space
add_key entry line none allowed = err (malformed entry line)
add_key entry line (some k) allowed =
    if not (is_empty (trim_space k.rest))
    then err (trailing_data entry line)
    else if not (has_no_options k.options)
    then err (has_options entry line)
    else ok (k.key ∷ allowed)

abbrev pub some_keys : List (List ℕ) → Result KeysError (List (List ℕ))
some_keys [] = err no_public_keys
some_keys (k ∷ allowed) = ok (k ∷ allowed)

-- `allowed[string(key.Marshal())]`
abbrev pub is_allowed : List (List ℕ) → List ℕ → Bool
is_allowed allowed key = any (λ k. bytes_eq k key) allowed

module _ (parse_authorized_key : List ℕ → Option AuthorizedKey) where
  -- The body of the inner loop for a trimmed line.
  unfoldable pub add_line : ℕ → ℕ → List ℕ → List (List ℕ) → Result KeysError (List (List ℕ))
  unfolding add_key
  add_line entry line text allowed =
      if is_skipped text then ok allowed else add_key entry line (parse_authorized_key text) allowed

  -- The inner loop, from the given number of a line on.
  unfoldable pub add_lines :
      ℕ → ℕ → List (List ℕ) → List (List ℕ) → Result KeysError (List (List ℕ))
  unfolding add_line key_line
  add_lines entry line [] allowed = ok allowed
  add_lines entry line (text ∷ texts) allowed =
      add_line entry line (key_line text) allowed >>= add_lines entry (line + 1) texts

  -- The outer loop, from the given number of an entry on.
  unfoldable pub add_texts : ℕ → List (List ℕ) → List (List ℕ) → Result KeysError (List (List ℕ))
  unfolding add_lines split
  add_texts entry [] allowed = ok allowed
  add_texts entry (text ∷ texts) allowed =
      add_lines entry 1 (split 10 text) allowed >>= add_texts (entry + 1) texts

  -- parsedSSHAuthorizedKeys
  unfoldable pub parsed_ssh_authorized_keys : List (List ℕ) → Result KeysError (List (List ℕ))
  unfolding add_texts
  parsed_ssh_authorized_keys texts = add_texts 1 texts [] >>= some_keys

  -- sshPublicKeyHandler: a test of the key that a client offers.
  unfoldable pub ssh_public_key_handler :
      Option (List (List ℕ)) → Result KeysError (Option (List ℕ → Bool))
  unfolding parsed_ssh_authorized_keys
  ssh_public_key_handler none = ok none
  ssh_public_key_handler (some texts) =
      parsed_ssh_authorized_keys texts >>= λ allowed. ok (some (is_allowed allowed))

  -- ValidateSSHAuthorizedKeys
  unfoldable pub validate_ssh_authorized_keys : List (List ℕ) → Result KeysError (Unit {0})
  unfolding parsed_ssh_authorized_keys
  validate_ssh_authorized_keys texts = parsed_ssh_authorized_keys texts >>= λ allowed. ok tt
