-- ===== src/Examples/Codec.antt =====
-- Keys of 32 bytes and a constant tag: the parameters of the model, instantiated.
use mathlib.Core.HLevel.{Σ_prop_path}
use tailcat_quic.Base.{
  ltb, ◌==◌, Eq, length, replicate, All, bytes_eq, bytes_eq_sound, bytes_eq_iff, IsByte, ℕ, ◌%◌,
  ◌≡◌, refl, sym, ap, ◌∙◌, Bool, true, false, ◌&&◌, List, [], ◌∷◌, arith, bytes_eq_inst,
}
use tailcat_quic.Keys.{KeyCodec, Hmac}

abbrev all_bytes : List ℕ → Bool
all_bytes [] = true
all_bytes (x ∷ xs) = ltb x 256 && all_bytes xs

abbrev is_key : List ℕ → Bool
is_key b = length b == 32 && all_bytes b

pub all_bytes_sound : (b : List ℕ) → all_bytes b ≡ true → All IsByte b
all_bytes_sound [] h = tt
all_bytes_sound (x ∷ xs) h = (ground arith, all_bytes_sound xs (ground arith))

pub all_bytes_complete : (b : List ℕ) → All IsByte b → all_bytes b ≡ true
all_bytes_complete [] h = refl
all_bytes_complete (x ∷ xs) h = ground (arith, all_bytes_complete xs h.1)

-- A key is 32 bytes.
abbrev pub Key : Type 0
Key = (b : List ℕ) × (is_key b ≡ true)

pub key_of-is_key : (n : ℕ) → is_key ((n % 256) ∷ replicate 31 0) ≡ true
key_of-is_key n = ground arith

abbrev pub key_of : ℕ → Key
key_of n = ((n % 256) ∷ replicate 31 0, key_of-is_key n)

pub length-key : (k : Key) → length k.0 ≡ 32
length-key k = ground (arith, k.1)

pub key-IsByte : (k : Key) → All IsByte k.0
key-IsByte k = all_bytes_sound k.0 (ground (arith, k.1))

pub is_key_complete : (b : List ℕ) → length b ≡ 32 → All IsByte b → is_key b ≡ true
is_key_complete b l h = ground (arith, all_bytes_complete b h)

pub key_eq : (a b : Key) → a.0 ≡ b.0 → a ≡ b
key_eq a b h = Σ_prop_path (λ _. hlevel) h

abbrev decode : (b : List ℕ) (o : Bool) → is_key b ≡ o → Key
decode b true h = (b, h)
decode b false h = key_of 0

pub decode-raw : (b : List ℕ) (o : Bool) (h : is_key b ≡ o) → is_key b ≡ true → (decode b o h).0 ≡ b
decode-raw b true h e = refl
decode-raw b false h e = absurd (cc (sym h ∙ e))

instance abbrev pub key_eq_inst : Eq Key
key_eq_inst = record {
  beq = λ a b. bytes_eq a.0 b.0;
  beq_iff = λ a b. (
    λ h. key_eq a b (bytes_eq_sound a.0 b.0 h),
    λ e. (bytes_eq_iff a.0 b.0).1 (ap (λ (k : Key). k.0) e),
  );
}

abbrev pub codec : KeyCodec Key
codec = record {
  eq = key_eq_inst;
  raw = λ k. k.0;
  from_raw = λ b. decode b (is_key b) refl;
  is_zero = λ k. bytes_eq k.0 (replicate 32 0);
  length-raw = length-key;
  raw-IsByte = key-IsByte;
  from_raw-raw =
      λ k. key_eq (decode k.0 (is_key k.0) refl) k (decode-raw k.0 (is_key k.0) refl k.1);
  raw-from_raw = λ b l h. decode-raw b (is_key b) refl (is_key_complete b l h);
  is_zero_iff = λ k. bytes_eq_iff k.0 (replicate 32 0);
}

abbrev pub constant_tag : Hmac
constant_tag = record { tag = λ k m. replicate 32 7; length-tag = λ k m. refl }
