-- ===== src/Results.antt =====
-- Go's (value, error) results: the value, or an error of the component's own type. A guard is
-- `if bad { return err }`.
use tailcat_quic.Base.{◌≡◌, refl, Bool, true, false, if◌then◌else◌}

pub data Result {ε ℓ} (E : Type ε) (A : Type ℓ) : Type (ε ⊔ ℓ) where
  err : E → Result E A
  ok : A → Result E A

abbrev pub reject {ε} : {E : Type ε} → (bad : Bool) → E → Result E (Unit {0})
reject false e = ok tt
reject true e = err e

-- What follows a step that returned no error.
module _ {ε ℓ} {E : Type ε} {B : Type ℓ} where
  infixl 5 ◌>>=◌ ◌>>◌
  abbrev pub ◌>>=◌ {κ} : {A : Type κ} → Result E A → (A → Result E B) → Result E B
  err e >>= next = err e
  ok value >>= next = next value

  abbrev pub ◌>>◌ : Result E (Unit {0}) → Result E B → Result E B
  guard >> next = guard >>= λ done. next

-- A predicate of the value, if there is one.
abbrev pub Holds {ℓ κ λ'} : {E : Type ℓ} {A : Type κ} → (A → Type λ') → Result E A → Type λ'
Holds P (ok a) = P a
Holds P (err e) = Unit

module _ {ℓ κ μ} {E : Type ℓ} {A : Type κ} (P : A → Type μ) where
  pub Holds->>= {λ'} :
      {B : Type λ'} (m : Result E B) (f : B → Result E A)
      → ((b : B) → Holds P (f b))
      → Holds P (m >>= f)
  Holds->>= (ok b) f h = h b
  Holds->>= (err e) f h = tt

  -- A bind after a value of which a predicate holds.
  pub Holds-after {λ' ν} :
      {B : Type λ'} (Q : B → Type ν) (m : Result E B) (f : B → Result E A)
      → Holds Q m
      → ((b : B) → Q b → Holds P (f b))
      → Holds P (m >>= f)
  Holds-after Q (ok b) f q h = h b q
  Holds-after Q (err e) f q h = tt

  pub Holds-if :
      (b : Bool) (m n : Result E A) → Holds P m → Holds P n → Holds P (if b then m else n)
  Holds-if true m n h k = h
  Holds-if false m n h k = k

  pub Holds-ok : (m : Result E A) {a : A} → Holds P m → m ≡ ok a → P a
  Holds-ok m h e = rw e at h

-- A predicate of the value, or one of the error.
abbrev pub Ends {ℓ κ} :
    {E : Type ℓ} {A : Type κ} → (E → Type 0) → (A → Type 0) → Result E A → Type 0
Ends W P (ok a) = P a
Ends W P (err e) = W e

pub Ends->>= {ℓ κ λ'} :
    {E : Type ℓ} {A : Type κ} {B : Type λ'} (W : E → Type 0) (P : A → Type 0) (Q : B → Type 0)
    (m : Result E A) (f : A → Result E B)
    → Ends W P m
    → ((a : A) → P a → Ends W Q (f a))
    → Ends W Q (m >>= f)
Ends->>= W P Q (ok a) f h k = k a h
Ends->>= W P Q (err e) f h k = h

-- A guard explains its error, or hands on that it did not strike.
pub Ends-reject {ℓ κ} :
    {E : Type ℓ} {B : Type κ} (W : E → Type 0) (Q : B → Type 0) (b : Bool) (e : E) (m : Result E B)
    → (b ≡ true → W e)
    → (b ≡ false → Ends W Q m)
    → Ends W Q (reject b e >> m)
Ends-reject W Q true e m h k = h refl
Ends-reject W Q false e m h k = k refl

pub Ends-if {ℓ κ} :
    {E : Type ℓ} {B : Type κ} (W : E → Type 0) (Q : B → Type 0) (b : Bool) (m n : Result E B)
    → (b ≡ true → Ends W Q m)
    → (b ≡ false → Ends W Q n)
    → Ends W Q (if b then m else n)
Ends-if W Q true m n h k = h refl
Ends-if W Q false m n h k = k refl

pub Ends-mono {ℓ κ} :
    {E : Type ℓ} {A : Type κ} (W : E → Type 0) (P Q : A → Type 0) (m : Result E A)
    → Ends W P m
    → ((a : A) → P a → Q a)
    → Ends W Q m
Ends-mono W P Q (ok a) h k = k a h
Ends-mono W P Q (err e) h k = h

pub Ends-ok {ℓ κ} :
    {E : Type ℓ} {A : Type κ} (W : E → Type 0) (P : A → Type 0) (m : Result E A) {a : A}
    → Ends W P m
    → m ≡ ok a
    → P a
Ends-ok W P m h e = rw e at h

-- Another predicate of each outcome.
pub Ends-map {ℓ κ} :
    {E : Type ℓ} {A : Type κ} (W W' : E → Type 0) (P P' : A → Type 0) (m : Result E A)
    → Ends W P m
    → ((e : E) → W e → W' e)
    → ((a : A) → P a → P' a)
    → Ends W' P' m
Ends-map W W' P P' (err e) h j k = j e h
Ends-map W W' P P' (ok a) h j k = k a h
