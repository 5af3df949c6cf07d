-- ===== src/Secret.antt =====
-- tailcat.go: PresharedKey, the 256-bit H3 connection secret, and its encodings.
pub mod Hex
pub mod RoundTrip
use tailcat_quic.Base.{
  ltb, leb, ◌==◌, if◌then◌else◌, ltb→lt, lt→ltb, leb→le, ==_iff, Bool-cases, Option-cases, Eq, beq,
  beq_refl, eq_of_beq, length, get_elem?, get_or, take, drop, replicate, length-append,
  take-append-drop, length-take, length-drop, take-length_append, drop-length_append,
  take-of_length, drop-of_length, length-replicate, All, any, take-two_fields, take-drop-two_fields,
  drop-drop-two_fields, three_fields, drop-drop, codes, bytes_eq, bytes_eq_sound, bytes_eq_self,
  bytes_eq_iff, slice, has_prefix, IsByte, lookup, insert, erase, lookup-insert, lookup-erase,
  length-erase-le, length-erase-present, length-insert-absent, ℕ, zero, suc, ◌+◌, ◌-◌, ◌*◌, ◌/◌,
  ◌%◌, ◌^◌, ◌≤◌, ◌<◌, max, min, compare, Ordering, ◌≡◌, refl, sym, ap, ap₂, ◌∙◌, subst, ◌≢◌, ◌↔◌,
  ◌⊎◌, inl, inr, Bool, true, false, not, ◌&&◌, ◌||◌, Option, none, some, List, [], ◌∷◌, ◌++◌, map,
  append_assoc, append-nil, arith, ℕ_discrete,
}
use tailcat_quic.Secret.Hex.{hex_encode, hex_decode}

abbrev pub preshared_key_len : ℕ
preshared_key_len = 32

-- A PresharedKey is a [32]byte array.
pub record IsSecret (p : List ℕ) : Type 0 where
  pub len : length p ≡ 32
  pub bytes : All IsByte p

-- subtle.ConstantTimeCompare with the zero array.
unfoldable pub is_zero : List ℕ → Bool
is_zero p = bytes_eq p (replicate preshared_key_len 0)

pub marshal_binary : List ℕ → List ℕ
marshal_binary p = p

pub unmarshal_binary : List ℕ → Option (List ℕ)
unmarshal_binary x = if length x == preshared_key_len then some x else none

abbrev pub text_prefix : List ℕ
text_prefix = codes "psk:"

pub marshal_text : List ℕ → List ℕ
marshal_text p = text_prefix ++ hex_encode p

-- `hex.EncodedLen(n)` is 2 * n.
unfoldable pub unmarshal_text : List ℕ → Option (List ℕ)
unmarshal_text x =
    if not (length x == 4 + 2 * preshared_key_len) || not (bytes_eq (take 4 x) text_prefix)
    then none
    else hex_decode (drop 4 x)
