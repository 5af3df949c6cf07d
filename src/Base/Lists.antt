-- ===== src/Base/Lists.antt =====
-- Lists measured and cut by native numbers, under the library's names.
use Prim.Native.Nat.{ℕ, zero, suc, ◌+◌, ◌-◌, ◌*◌, ◌≤◌, min}
use mathlib.Core.Path.{◌≡◌, refl, ap, ◌∙◌}
use mathlib.Core.List.{List, [], ◌∷◌, ◌++◌, append_assoc}
use mathlib.Core.Option.{Option, none, some}
use native.Mathlib.Nat.{zero-add, suc-add}
use native.Mathlib.Omega.{arith}

module _ {ℓ} {A : Type ℓ} where
  abbrev pub length : List A → ℕ
  length [] = 0
  length (x ∷ xs) = suc (length xs)

  abbrev pub get_elem? : List A → ℕ → Option A
  get_elem? [] i = none
  get_elem? (x ∷ xs) zero = some x
  get_elem? (x ∷ xs) (suc i) = get_elem? xs i

  abbrev pub get_or : List A → ℕ → A → A
  get_or [] i d = d
  get_or (x ∷ xs) zero d = x
  get_or (x ∷ xs) (suc i) d = get_or xs i d

  abbrev pub take : ℕ → List A → List A
  take zero xs = []
  take (suc n) [] = []
  take (suc n) (x ∷ xs) = x ∷ take n xs

  abbrev pub drop : ℕ → List A → List A
  drop zero xs = xs
  drop (suc n) [] = []
  drop (suc n) (x ∷ xs) = drop n xs

  abbrev pub replicate : ℕ → A → List A
  replicate zero a = []
  replicate (suc n) a = a ∷ replicate n a

  pub length-append : (xs ys : List A) → length (xs ++ ys) ≡ length xs + length ys
  length-append [] ys = omega arith
  length-append (x ∷ xs) ys = omega (arith, length-append xs ys)

  pub take-append-drop : (n : ℕ) (xs : List A) → take n xs ++ drop n xs ≡ xs
  take-append-drop zero xs = refl
  take-append-drop (suc n) [] = refl
  take-append-drop (suc n) (x ∷ xs) = ap (◌∷◌ x) (take-append-drop n xs)

  pub length-take : (n : ℕ) (xs : List A) → length (take n xs) ≡ min n (length xs)
  length-take zero xs = omega arith
  length-take (suc n) [] = omega arith
  length-take (suc n) (x ∷ xs) = omega (arith, length-take n xs)

  pub length-drop : (n : ℕ) (xs : List A) → length (drop n xs) ≡ length xs - n
  length-drop zero xs = omega arith
  length-drop (suc n) [] = omega arith
  length-drop (suc n) (x ∷ xs) = omega (arith, length-drop n xs)

  -- The first part of a concatenation, by its known length.
  pub take-length_append : (n : ℕ) (xs ys : List A) → length xs ≡ n → take n (xs ++ ys) ≡ xs
  take-length_append zero [] ys h = refl
  take-length_append zero (x ∷ xs) ys h = absurd (omega arith)
  take-length_append (suc n) [] ys h = absurd (omega arith)
  take-length_append (suc n) (x ∷ xs) ys h = ap (◌∷◌ x) (take-length_append n xs ys (omega arith))

  pub drop-length_append : (n : ℕ) (xs ys : List A) → length xs ≡ n → drop n (xs ++ ys) ≡ ys
  drop-length_append zero [] ys h = refl
  drop-length_append zero (x ∷ xs) ys h = absurd (omega arith)
  drop-length_append (suc n) [] ys h = absurd (omega arith)
  drop-length_append (suc n) (x ∷ xs) ys h = drop-length_append n xs ys (omega arith)

  pub take-of_length : (n : ℕ) (xs : List A) → length xs ≡ n → take n xs ≡ xs
  take-of_length zero [] h = refl
  take-of_length zero (x ∷ xs) h = absurd (omega arith)
  take-of_length (suc n) [] h = refl
  take-of_length (suc n) (x ∷ xs) h = ap (◌∷◌ x) (take-of_length n xs (omega arith))

  pub drop-of_length : (n : ℕ) (xs : List A) → length xs ≤ n → drop n xs ≡ []
  drop-of_length zero [] h = refl
  drop-of_length zero (x ∷ xs) h = absurd (omega arith)
  drop-of_length (suc n) [] h = refl
  drop-of_length (suc n) (x ∷ xs) h = drop-of_length n xs (omega arith)

  pub length-replicate : (n : ℕ) (a : A) → length (replicate n a) ≡ n
  length-replicate zero a = refl
  length-replicate (suc n) a = ap suc (length-replicate n a)

abbrev pub All {ℓ κ} : {A : Type ℓ} → (A → Type κ) → List A → Type κ
All P [] = Unit
All P (x ∷ xs) = P x × All P xs

-- A Boolean test that some element passes.
abbrev pub any {ℓ} : {A : Type ℓ} → (A → mathlib.Core.Bool.Bool) → List A → mathlib.Core.Bool.Bool
any p [] = mathlib.Core.Bool.false
any p (x ∷ xs) = mathlib.Core.Bool.◌||◌ (p x) (any p xs)

-- Two fields of known lengths at the front of a buffer.
module _ {ℓ} {A : Type ℓ} (n m : ℕ) (a b rest : List A) (ha : length a ≡ n)
    (hb : length b ≡ m) where
  pub take-two_fields : take n (a ++ (b ++ rest)) ≡ a
  take-two_fields = take-length_append n a (b ++ rest) ha

  pub take-drop-two_fields : take m (drop n (a ++ (b ++ rest))) ≡ b
  take-drop-two_fields =
      ap (take m) (drop-length_append n a (b ++ rest) ha) ∙ take-length_append m b rest hb

  pub drop-drop-two_fields : drop m (drop n (a ++ (b ++ rest))) ≡ rest
  drop-drop-two_fields =
      ap (drop m) (drop-length_append n a (b ++ rest) ha) ∙ drop-length_append m b rest hb

-- A buffer is its first two fields and the rest.
pub three_fields {ℓ} :
    {A : Type ℓ} (n m : ℕ) (xs : List A)
    → (take n xs ++ take m (drop n xs)) ++ drop m (drop n xs) ≡ xs
three_fields n m xs =
    append_assoc (take n xs) (take m (drop n xs)) (drop m (drop n xs))
    ∙ ap (◌++◌ (take n xs)) (take-append-drop m (drop n xs))
    ∙ take-append-drop n xs

pub drop-drop {ℓ} : {A : Type ℓ} (m n : ℕ) (xs : List A) → drop m (drop n xs) ≡ drop (n + m) xs
drop-drop m zero xs = rw zero-add
drop-drop zero (suc n) [] = rw suc-add
drop-drop (suc m) (suc n) [] = rw suc-add
drop-drop m (suc n) (x ∷ xs) = rw suc-add (drop-drop m n xs)

-- A buffer of four fields, read field by field.
module _ {ℓ} {A : Type ℓ} (n : ℕ) (a b c d : List A) (ha : length a ≡ n) (hb : length b ≡ n)
    (hc : length c ≡ n) (hd : length d ≡ n) where
  pub four_fields :
      let body = (a ++ (b ++ c)) ++ d in
      (length body ≡ 4 * n)
      × (take n body ≡ a)
      × (take n (drop n body) ≡ b)
      × (take n (drop (n + n) body) ≡ c)
      × (take n (drop (n + n + n) body) ≡ d)
  four_fields =
      rw (append_assoc a (b ++ c) d, append_assoc b c d)
        (
          omega
              (arith, length-append a (b ++ (c ++ d)), length-append b (c ++ d), length-append c d),
          take-two_fields n n a b (c ++ d) ha hb,
          take-drop-two_fields n n a b (c ++ d) ha hb,
          rw (← drop-drop n n (a ++ (b ++ (c ++ d))), drop-drop-two_fields n n a b (c ++ d) ha hb)
              (take-length_append n c d hc),
          rw
              (
                ← drop-drop n (n + n) (a ++ (b ++ (c ++ d))),
                ← drop-drop n n (a ++ (b ++ (c ++ d))),
                drop-drop-two_fields n n a b (c ++ d) ha hb,
                drop-length_append n c d hc,
              )
              (take-of_length n d hd),
        )
