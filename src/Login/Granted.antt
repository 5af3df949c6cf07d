-- ===== src/Login/Granted.antt =====
-- The keys that authorized_keys texts list, line by line, and that parsedSSHAuthorizedKeys collects
-- these.
use tailcat_quic.Base.{
  if◌then◌else◌, any, ℕ, ◌+◌, ◌≡◌, refl, ap, ◌∙◌, Bool, true, false, not, ◌&&◌, ◌||◌, Option, none,
  some, List, [], ◌∷◌,
}
use tailcat_quic.Results.{Result, ok, err, ◌>>=◌, Holds}
use tailcat_quic.Text.{split, trim_space, is_empty}
use tailcat_quic.Login.Keys.{
  AuthorizedKey, KeysError, trailing_data, has_options, key_line, is_skipped, has_no_options,
  add_key, add_line, add_lines, add_texts,
}

abbrev pub is_ok : {E A : Type 0} → Result E A → Bool
is_ok (ok a) = true
is_ok (err e) = false

abbrev pub every : {A : Type 0} → (A → Bool) → List A → Bool
every p [] = true
every p (x ∷ xs) = p x && every p xs

-- A key alone on its line.
abbrev pub is_bare : AuthorizedKey → Bool
is_bare k = is_empty (trim_space k.rest) && has_no_options k.options

abbrev entry_with : (List ℕ → Bool) → Option AuthorizedKey → Bool
entry_with p none = false
entry_with p (some k) = is_bare k && p k.key

module _ (parse_authorized_key : List ℕ → Option AuthorizedKey) where
  -- A line lists a key that passes the test, without options or anything else.
  abbrev pub lists : (List ℕ → Bool) → List ℕ → Bool
  lists p text = not (is_skipped text) && entry_with p (parse_authorized_key text)

  -- Blank, a comment, or a key.
  abbrev pub is_wellformed : List ℕ → Bool
  is_wellformed text = is_skipped text || lists (λ k. true) text

  -- Some line of some text lists a key that passes the test.
  abbrev pub some_line_lists : (List ℕ → Bool) → List (List ℕ) → Bool
  some_line_lists p texts = any (λ text. any (λ l. lists p (key_line l)) (split 10 text)) texts

  abbrev pub every_line_wellformed : List (List ℕ) → Bool
  every_line_wellformed texts =
      every (λ text. every (λ l. is_wellformed (key_line l)) (split 10 text)) texts

-- What one more line adds to a test of the keys so far.
or-swap : (a b c : Bool) → (b || (a || c)) ≡ ((a || b) || c)
or-swap true true c = refl
or-swap true false c = refl
or-swap false b c = refl

is_ok->>= :
    {E A B : Type 0} (m : Result E A) (f : A → Result E B) (b : Bool)
    → ((a : A) → is_ok (f a) ≡ b)
    → is_ok (m >>= f) ≡ (is_ok m && b)
is_ok->>= (err e) f b h = refl
is_ok->>= (ok a) f b h = h a

module _ (p : List ℕ → Bool) where
  -- The keys after a step: a key of them passes the test if one of the step or one before does.
  abbrev Adds : Bool → List (List ℕ) → List (List ℕ) → Type 0
  Adds b before after = any p after ≡ (b || any p before)

  Adds-chain :
      (x y : Bool) (before : List (List ℕ)) (m : Result KeysError (List (List ℕ)))
      (f : List (List ℕ) → Result KeysError (List (List ℕ)))
      → Holds (Adds x before) m
      → ((a : List (List ℕ)) → Holds (Adds y a) (f a))
      → Holds (Adds (x || y) before) (m >>= f)
  Adds-chain x y before (err e) f h k = tt
  Adds-chain x y before (ok a) f h k = Adds-later (f a) (k a)
    where
      Adds-later :
          (n : Result KeysError (List (List ℕ)))
          → Holds (Adds y a) n
          → Holds (Adds (x || y) before) n
      Adds-later (err e) i = tt
      Adds-later (ok c) i = i ∙ ap (λ z. y || z) h ∙ or-swap x y (any p before)

  add_key-Adds :
      (entry line : ℕ) (k : Option AuthorizedKey) (allowed : List (List ℕ))
      → Holds (Adds (entry_with p k) allowed) (add_key entry line k allowed)
  unfolding add_key
  add_key-Adds entry line none allowed = tt
  add_key-Adds entry line (some k) allowed =
      by_tests (is_empty (trim_space k.rest)) (has_no_options k.options)
    where
      by_tests :
          (r o : Bool)
          → Holds (Adds ((r && o) && p k.key) allowed) (
              if not r
              then err (trailing_data entry line)
              else if not o
              then err (has_options entry line)
              else ok (k.key ∷ allowed))
      by_tests false o = tt
      by_tests true false = tt
      by_tests true true = refl

is_ok-add_key :
    (entry line : ℕ) (k : Option AuthorizedKey) (allowed : List (List ℕ))
    → is_ok (add_key entry line k allowed) ≡ entry_with (λ key. true) k
unfolding add_key
is_ok-add_key entry line none allowed = refl
is_ok-add_key entry line (some k) allowed =
    by_tests (is_empty (trim_space k.rest)) (has_no_options k.options)
  where
    by_tests :
        (r o : Bool)
        → is_ok (
            if not r
            then err (trailing_data entry line)
            else if not o
            then err (has_options entry line)
            else ok (k.key ∷ allowed))
          ≡ ((r && o) && true)
    by_tests false o = refl
    by_tests true false = refl
    by_tests true true = refl

module _ (parse : List ℕ → Option AuthorizedKey) where
  module _ (p : List ℕ → Bool) where
    add_line-Adds :
        (entry line : ℕ) (text : List ℕ) (allowed : List (List ℕ))
        → Holds (Adds p (lists parse p text) allowed) (add_line parse entry line text allowed)
    unfolding add_line
    add_line-Adds entry line text allowed =
        by_skip (entry_with p (parse text)) (add_key entry line (parse text) allowed)
          (is_skipped text) (add_key-Adds p entry line (parse text) allowed)
      where
        by_skip :
            (b : Bool) (m : Result KeysError (List (List ℕ))) (skip : Bool)
            → Holds (Adds p b allowed) m
            → Holds (Adds p (not skip && b) allowed) (if skip then ok allowed else m)
        by_skip b m true h = refl
        by_skip b m false h = h

    add_lines-Adds :
        (entry line : ℕ) (texts allowed : List (List ℕ))
        → Holds
            (Adds p (any (λ l. lists parse p (key_line l)) texts) allowed)
            (add_lines parse entry line texts allowed)
    unfolding add_lines
    add_lines-Adds entry line [] allowed = refl
    add_lines-Adds entry line (text ∷ texts) allowed =
        Adds-chain p (lists parse p (key_line text)) (any (λ l. lists parse p (key_line l)) texts)
          allowed (add_line parse entry line (key_line text) allowed)
          (add_lines parse entry (line + 1) texts)
          (add_line-Adds entry line (key_line text) allowed) (add_lines-Adds entry (line + 1) texts)

    pub add_texts-Adds :
        (entry : ℕ) (texts allowed : List (List ℕ))
        → Holds
            (Adds p (some_line_lists parse p texts) allowed)
            (add_texts parse entry texts allowed)
    unfolding add_texts
    add_texts-Adds entry [] allowed = refl
    add_texts-Adds entry (text ∷ texts) allowed =
        Adds-chain p (any (λ l. lists parse p (key_line l)) (split 10 text))
          (some_line_lists parse p texts) allowed (add_lines parse entry 1 (split 10 text) allowed)
          (add_texts parse (entry + 1) texts) (add_lines-Adds entry 1 (split 10 text) allowed)
          (add_texts-Adds (entry + 1) texts)

  is_ok-add_line :
      (entry line : ℕ) (text : List ℕ) (allowed : List (List ℕ))
      → is_ok (add_line parse entry line text allowed) ≡ is_wellformed parse text
  unfolding add_line
  is_ok-add_line entry line text allowed =
      by_skip (entry_with (λ k. true) (parse text)) (add_key entry line (parse text) allowed)
        (is_skipped text) (is_ok-add_key entry line (parse text) allowed)
    where
      by_skip :
          (b : Bool) (m : Result KeysError (List (List ℕ))) (skip : Bool)
          → is_ok m ≡ b
          → is_ok (if skip then ok allowed else m) ≡ (skip || (not skip && b))
      by_skip b m true h = refl
      by_skip b m false h = h

  is_ok-add_lines :
      (entry line : ℕ) (texts allowed : List (List ℕ))
      → is_ok (add_lines parse entry line texts allowed)
        ≡ every (λ l. is_wellformed parse (key_line l)) texts
  unfolding add_lines
  is_ok-add_lines entry line [] allowed = refl
  is_ok-add_lines entry line (text ∷ texts) allowed =
      is_ok->>= (add_line parse entry line (key_line text) allowed)
        (add_lines parse entry (line + 1) texts)
        (every (λ l. is_wellformed parse (key_line l)) texts)
        (is_ok-add_lines entry (line + 1) texts)
      ∙ ap (λ b. b && every (λ l. is_wellformed parse (key_line l)) texts)
          (is_ok-add_line entry line (key_line text) allowed)

  pub is_ok-add_texts :
      (entry : ℕ) (texts allowed : List (List ℕ))
      → is_ok (add_texts parse entry texts allowed) ≡ every_line_wellformed parse texts
  unfolding add_texts
  is_ok-add_texts entry [] allowed = refl
  is_ok-add_texts entry (text ∷ texts) allowed =
      is_ok->>= (add_lines parse entry 1 (split 10 text) allowed)
        (add_texts parse (entry + 1) texts) (every_line_wellformed parse texts)
        (is_ok-add_texts (entry + 1) texts)
      ∙ ap (λ b. b && every_line_wellformed parse texts)
          (is_ok-add_lines entry 1 (split 10 text) allowed)
