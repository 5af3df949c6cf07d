-- ===== src/Login/Accepts.antt =====
-- That sshPublicKeyHandler and ValidateSSHAuthorizedKeys of tailcat_ssh_keys.go agree with the listed keys.
use tailcat_quic.Base.{
  any, bytes_eq, ℕ, ◌≡◌, refl, ap, ◌∙◌, Bool, true, false, ◌&&◌, ◌||◌, Option, none, some, List, [],
  ◌∷◌,
}
use tailcat_quic.Results.{Result, ok, err, ◌>>=◌, Holds}
use tailcat_quic.Login.Keys.{
  AuthorizedKey, KeysError, some_keys, add_texts, parsed_ssh_authorized_keys, is_allowed,
  ssh_public_key_handler, validate_ssh_authorized_keys,
}
use tailcat_quic.Login.Granted.{
  is_ok, some_line_lists, every_line_wellformed, add_texts-Adds, is_ok-add_texts,
}

-- After the loops: the keys are kept if there are any.
is_ok-some_keys :
    (m : Result KeysError (List (List ℕ))) (wellformed some_key : Bool)
    → is_ok m ≡ wellformed
    → Holds (λ keys. any (λ k. true) keys ≡ (some_key || false)) m
    → is_ok (m >>= some_keys) ≡ (wellformed && some_key)
is_ok-some_keys (err e) wellformed some_key w h = ap (λ b. b && some_key) w
is_ok-some_keys (ok []) wellformed true w h = h ∙ ap (λ b. b && true) w
is_ok-some_keys (ok []) wellformed false w h = ap (λ b. b && false) w
is_ok-some_keys (ok (k ∷ keys)) wellformed true w h = ap (λ b. b && true) w
is_ok-some_keys (ok (k ∷ keys)) wellformed false w h = h ∙ ap (λ b. b && false) w

some_keys-same :
    (m : Result KeysError (List (List ℕ))) (key : List ℕ) (b : Bool)
    → Holds (λ keys. is_allowed keys key ≡ (b || false)) m
    → Holds (λ keys. is_allowed keys key ≡ b) (m >>= some_keys)
some_keys-same (err e) key b h = tt
some_keys-same (ok []) key true h = tt
some_keys-same (ok []) key false h = tt
some_keys-same (ok (k ∷ keys)) key true h = h
some_keys-same (ok (k ∷ keys)) key false h = h

is_ok-then :
    {A B : Type 0} (m : Result KeysError A) (f : A → B) → is_ok (m >>= λ a. ok (f a)) ≡ is_ok m
is_ok-then (err e) f = refl
is_ok-then (ok a) f = refl

module _ (parse : List ℕ → Option AuthorizedKey) where
  -- What authorized_keys texts are: keys, comments and blank lines, with at least one key.
  abbrev pub is_key_list : List (List ℕ) → Bool
  is_key_list texts = every_line_wellformed parse texts && some_line_lists parse (λ k. true) texts

  is_ok-parsed :
      (texts : List (List ℕ)) → is_ok (parsed_ssh_authorized_keys parse texts) ≡ is_key_list texts
  unfolding parsed_ssh_authorized_keys
  is_ok-parsed texts =
      is_ok-some_keys (add_texts parse 1 texts []) (every_line_wellformed parse texts)
        (some_line_lists parse (λ k. true) texts) (is_ok-add_texts parse 1 texts [])
        (add_texts-Adds parse (λ k. true) 1 texts [])

  -- ValidateSSHAuthorizedKeys accepts texts exactly if each of their lines is blank, a comment or a
  -- key alone, without options, and at least one is a key.
  pub validate_ssh_authorized_keys_iff :
      (texts : List (List ℕ)) → is_ok (validate_ssh_authorized_keys parse texts) ≡ is_key_list texts
  unfolding validate_ssh_authorized_keys
  validate_ssh_authorized_keys_iff texts =
      is_ok-then (parsed_ssh_authorized_keys parse texts) (λ allowed. tt) ∙ is_ok-parsed texts

  parsed_lists :
      (texts : List (List ℕ)) (key : List ℕ)
      → Holds
          (λ keys. is_allowed keys key ≡ some_line_lists parse (λ k. bytes_eq k key) texts)
          (parsed_ssh_authorized_keys parse texts)
  unfolding parsed_ssh_authorized_keys
  parsed_lists texts key =
      some_keys-same (add_texts parse 1 texts []) key
        (some_line_lists parse (λ k. bytes_eq k key) texts)
        (add_texts-Adds parse (λ k. bytes_eq k key) 1 texts [])

  -- The handler of the keys that a client offers, for the texts of the options.
  abbrev pub HandlerFor : Option (List (List ℕ)) → Option (List ℕ → Bool) → Type 0
  HandlerFor none handler = handler ≡ none
  HandlerFor (some texts) handler =
      (test : List ℕ → Bool) × (handler ≡ some test)
      × ((key : List ℕ) → test key ≡ some_line_lists parse (λ k. bytes_eq k key) texts)

  pub ssh_public_key_handler-HandlerFor :
      (keys : Option (List (List ℕ))) → Holds (HandlerFor keys) (ssh_public_key_handler parse keys)
  unfolding ssh_public_key_handler
  ssh_public_key_handler-HandlerFor none = refl
  ssh_public_key_handler-HandlerFor (some texts) =
      of_parsed (parsed_ssh_authorized_keys parse texts) (parsed_lists texts)
    where
      of_parsed :
          (m : Result KeysError (List (List ℕ)))
          → ((key : List ℕ)
              → Holds
                  (λ keys. is_allowed keys key ≡ some_line_lists parse (λ k. bytes_eq k key) texts)
                  m)
          → Holds (HandlerFor (some texts)) (m >>= λ allowed. ok (some (is_allowed allowed)))
      of_parsed (err e) h = tt
      of_parsed (ok keys) h = (is_allowed keys, refl, h)

  pub is_ok-handler :
      (texts : List (List ℕ))
      → is_ok (ssh_public_key_handler parse (some texts)) ≡ is_key_list texts
  unfolding ssh_public_key_handler
  is_ok-handler texts =
      is_ok-then (parsed_ssh_authorized_keys parse texts) (λ a. some (is_allowed a))
      ∙ is_ok-parsed texts
