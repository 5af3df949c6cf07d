-- ===== src/Cli/Names/Leaks.antt =====
-- Which names are looked up.
use tailcat_quic.Base.{
  ltb, ◌==◌, was_required, some-eq, length, get_or, All, codes, has_prefix, ℕ, ◌-◌, ◌≤◌, ◌<◌, ◌≡◌,
  refl, sym, ap, ◌∙◌, ◌≢◌, Bool, true, false, not, ◌&&◌, ◌||◌, Option, none, some, List, [], ◌∷◌,
  arith,
}
use tailcat_quic.Results.{Result, ok, err, Ends, Ends->>=, Ends-reject, Ends-if, Ends-mono}
use tailcat_quic.Text.{contains_byte, split, trim_suffix}
use tailcat_quic.Keys.{KeyCodec}
use tailcat_quic.Address.{Encoding, h3_address_prefix}
use tailcat_quic.Cli.Names.{
  Looked, validate_named, checked, validated_addr, long_label, hyphen, long_name, neither,
  resembles_credential, contains_address, DnsError, check_characters, check_label, check_labels,
  validate_dns_name, is_name_character, NameError, Named, an_address, dns_name, valid_name, is_addr,
  refuse_credentials, classify_tailcat_addr_arg, look_up, tailcat_addr_arg,
}

-- A label of a host name: 1 to 63 letters, digits and hyphens, no hyphen at either end.
pub record IsLabel (w : List ℕ) : Type 0 where
  pub not_empty : 0 < length w
  pub short : length w ≤ 63
  pub characters : All (λ c. is_name_character c ≡ true) w
  pub no_hyphen_first : get_or w 0 0 ≢ 45
  pub no_hyphen_last : get_or w (length w - 1) 0 ≢ 45

abbrev Any : {E : Type 0} → E → Type 0
Any e = Unit {0}

abbrev NameCharacters : List ℕ → Type 0
NameCharacters s = All (λ c. is_name_character c ≡ true) s

check_characters_lem :
    (s : List ℕ) → Ends Any (λ (_ : Unit {0}). NameCharacters s) (check_characters s)
unfolding check_characters
check_characters_lem [] = tt
check_characters_lem (c ∷ s) =
    Ends-if Any (λ _. NameCharacters (c ∷ s)) (is_name_character c) (check_characters s) _
      (λ y.
        Ends-mono Any (λ _. NameCharacters s) _ (check_characters s) (check_characters_lem s)
          (λ _ h. (y, h)))
      (λ n. tt)

check_label_lem :
    (c : ℕ) (s : List ℕ) → Ends Any (λ (_ : Unit {0}). IsLabel (c ∷ s)) (check_label (c ∷ s))
unfolding check_label
check_label_lem c s =
    Ends-reject Any Q (ltb 63 (length (c ∷ s))) long_label _ (λ _. tt)
      (λ a.
        Ends-reject Any Q (get_or (c ∷ s) 0 0 == 45 || get_or (c ∷ s) (length (c ∷ s) - 1) 0 == 45)
          hyphen _ (λ _. tt)
          (λ b.
            Ends-mono Any (λ _. NameCharacters (c ∷ s)) Q (check_characters (c ∷ s))
              (check_characters_lem (c ∷ s))
              (λ _ h. record {
                not_empty = omega arith;
                short = ground arith;
                characters = h;
                no_hyphen_first = λ e. ground arith;
                no_hyphen_last = λ e. ground arith;
              })))
  where
    Q : Unit {0} → Type 0
    Q _ = IsLabel (c ∷ s)

check_labels_lem :
    (ws : List (List ℕ)) → Ends Any (λ (_ : Unit {0}). All IsLabel ws) (check_labels ws)
unfolding check_labels
check_labels_lem [] = tt
check_labels_lem ([] ∷ rest) = tt
check_labels_lem ((c ∷ s) ∷ rest) =
    Ends->>= Any (λ _. IsLabel (c ∷ s)) (λ _. All IsLabel ((c ∷ s) ∷ rest)) (check_label (c ∷ s)) _
      (check_label_lem c s)
      (λ _ h.
        Ends-mono Any (λ _. All IsLabel rest) _ (check_labels rest) (check_labels_lem rest)
          (λ _ k. (h, k)))

-- A host name without its final dot.
abbrev pub IsHostName : List ℕ → Type 0
IsHostName name = (length name ≤ 253) × All IsLabel (split b'.' name)

validate_dns_name_lem :
    (name : List ℕ) → Ends Any (λ (_ : Unit {0}). IsHostName name) (validate_dns_name name)
unfolding validate_dns_name
validate_dns_name_lem [] = tt
validate_dns_name_lem (c ∷ s) =
    Ends-reject Any (λ _. IsHostName (c ∷ s)) (ltb 253 (length (c ∷ s))) long_name _ (λ _. tt)
      (λ a.
        Ends-mono Any (λ _. All IsLabel (split b'.' (c ∷ s))) _ (check_labels (split b'.' (c ∷ s)))
          (check_labels_lem (split b'.' (c ∷ s))) (λ _ h. (ground arith, h)))

module _ {N D : Type 0} (node : KeyCodec N) (disco : KeyCodec D) (coding : Encoding N D) where
  -- A label that does not give a connection code away.
  abbrev pub IsHarmless : List ℕ → Type 0
  IsHarmless w =
      (is_addr node disco coding w ≡ false)
      × ((has_prefix w h3_address_prefix && ltb 20 (length w)) ≡ false)

  refuse_credentials_lem :
      (ws : List (List ℕ))
      → Ends Any (λ (_ : Unit {0}). All IsHarmless ws) (refuse_credentials node disco coding ws)
  unfolding refuse_credentials
  refuse_credentials_lem [] = tt
  refuse_credentials_lem (w ∷ ws) =
      Ends-reject Any (λ _. All IsHarmless (w ∷ ws))
        (has_prefix w h3_address_prefix && ltb 20 (length w)) resembles_credential _ (λ _. tt)
        (λ a.
          Ends-reject Any (λ _. All IsHarmless (w ∷ ws)) (is_addr node disco coding w)
            contains_address _ (λ _. tt)
            (λ b.
              Ends-mono Any (λ _. All IsHarmless ws) _ (refuse_credentials node disco coding ws)
                (refuse_credentials_lem ws) (λ _ h. ((b, a), h))))

  -- What is known of an argument that is looked up.
  abbrev pub IsPublicName : List ℕ → Type 0
  IsPublicName arg =
      (is_addr node disco coding arg ≡ false)
      × All IsHarmless (split b'.' (trim_suffix (codes ".") arg))
      × IsHostName (trim_suffix (codes ".") arg)

  abbrev Classified : List ℕ → Named → Type 0
  Classified arg (an_address a) = (a ≡ arg) × (is_addr node disco coding arg ≡ true)
  Classified arg (dns_name n) = (n ≡ arg) × IsPublicName arg

  classify_lem :
      (arg : List ℕ) → Ends Any (Classified arg) (classify_tailcat_addr_arg node disco coding arg)
  unfolding classify_tailcat_addr_arg
  classify_lem arg =
      Ends-if Any (Classified arg) (is_addr node disco coding arg) _ _ (λ y. (refl, y))
        (λ n.
          Ends-if Any (Classified arg) (not (contains_byte b'.' arg)) (err neither) _ (λ _. tt)
            (λ _.
              Ends->>= Any (λ _. All IsHarmless (split b'.' name)) (Classified arg)
                (refuse_credentials node disco coding (split b'.' name)) _
                (refuse_credentials_lem (split b'.' name))
                (λ _ h. named n h (validate_dns_name name) (validate_dns_name_lem name))))
    where
      name : List ℕ
      name = trim_suffix (codes ".") arg

      named :
          is_addr node disco coding arg ≡ false
          → All IsHarmless (split b'.' name)
          → (r : Result DnsError (Unit {0})) → Ends Any (λ _. IsHostName name) r
          → Ends Any (Classified arg) (valid_name arg r)
      named n h (ok _) k = (refl, (n, h, k))
      named n h (err e) k = tt

  -- The only name that is ever looked up is the argument itself, and then it is a host name, no
  -- connection code, and no label of it is a connection code or resembles one.
  pub tailcat_addr_arg_queries :
      (lookup_txt : List ℕ → Option (List (List ℕ))) (arg n : List ℕ)
      → (tailcat_addr_arg node disco coding lookup_txt arg).queried ≡ some n
      → (n ≡ arg) × IsPublicName arg
  unfolding tailcat_addr_arg look_up
  tailcat_addr_arg_queries lookup_txt arg n e =
      of_result (classify_tailcat_addr_arg node disco coding arg) (classify_lem arg) e
    where
      of_result :
          (r : Result NameError Named)
          → Ends Any (Classified arg) r
          → (look_up node disco coding lookup_txt r).queried ≡ some n
          → (n ≡ arg) × IsPublicName arg
      of_result (err x) h g = absurd (cc)
      of_result (ok (an_address a)) h g = absurd (cc)
      of_result (ok (dns_name m)) h g = (sym (some-eq g) ∙ h.0, h.1)

  checked_parses :
      (via : Bool) (o : Option (List ℕ)) {r : List ℕ × Bool}
      → checked node disco coding via o ≡ some r
      → is_addr node disco coding r.0 ≡ true
  checked_parses via none e = absurd (cc)
  checked_parses via (some a) e =
      let passed = was_required (is_addr node disco coding a) (some (a, via)) e in
      rw (sym (ap (λ (p : List ℕ × Bool). p.0) (some-eq passed.1))) passed.0

  checked_via :
      (via : Bool) (o : Option (List ℕ)) {r : List ℕ × Bool}
      → checked node disco coding via o ≡ some r
      → r.1 ≡ via
  checked_via via none e = absurd (cc)
  checked_via via (some a) e = sym (
      ap (λ (p : List ℕ × Bool). p.1)
        (some-eq (was_required (is_addr node disco coding a) (some (a, via)) e).1))

  module _ (lookup_txt : List ℕ → Option (List (List ℕ))) where
    validate_named_parses :
        (dot : Bool) (arg : List ℕ) (l : Looked) {r : List ℕ × Bool}
        → (validate_named node disco coding lookup_txt dot arg l).result ≡ some r
        → is_addr node disco coding r.0 ≡ true
    unfolding validate_named
    validate_named_parses true arg l e = checked_parses true l.address e
    validate_named_parses false arg l e = checked_parses false (some arg) e

    -- What validatedAddr returns is a connection code.
    pub validated_addr_parses :
        (arg : List ℕ) {r : List ℕ × Bool}
        → (validated_addr node disco coding lookup_txt arg).result ≡ some r
        → is_addr node disco coding r.0 ≡ true
    unfolding validated_addr
    validated_addr_parses arg e =
        validate_named_parses (contains_byte b'.' arg) arg
          (tailcat_addr_arg node disco coding lookup_txt arg) e

    validate_named_via :
        (dot : Bool) (arg : List ℕ) (l : Looked) {r : List ℕ × Bool}
        → (validate_named node disco coding lookup_txt dot arg l).result ≡ some r
        → r.1 ≡ dot
    unfolding validate_named
    validate_named_via true arg l e = checked_via true l.address e
    validate_named_via false arg l e = checked_via false (some arg) e

    -- What validatedAddr says came from DNS are the arguments with a dot.
    pub validated_addr_via :
        (arg : List ℕ) {r : List ℕ × Bool}
        → (validated_addr node disco coding lookup_txt arg).result ≡ some r
        → r.1 ≡ contains_byte b'.' arg
    unfolding validated_addr
    validated_addr_via arg e =
        validate_named_via (contains_byte b'.' arg) arg
          (tailcat_addr_arg node disco coding lookup_txt arg) e
