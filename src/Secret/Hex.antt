-- ===== src/Secret/Hex.antt =====
-- Lower-case hexadecimal as encoding/hex writes it and as hexNodeKey of h3_streams.go spells it out.
use tailcat_quic.Base.{
  ltb, leb, if◌then◌else◌, length, All, IsByte, ℕ, ◌+◌, ◌-◌, ◌*◌, ◌/◌, ◌%◌, ◌<◌, ◌≡◌, refl, ◌&&◌,
  Option, none, some, List, [], ◌∷◌, map, arith,
}

-- "0123456789abcdef"[v]
unfoldable pub hex_digit : ℕ → ℕ
hex_digit v = if ltb v 10 then b'0' + v else b'a' + (v - 10)

unfoldable pub hex_encode : List ℕ → List ℕ
hex_encode [] = []
hex_encode (v ∷ k) = hex_digit (v / 16) ∷ hex_digit (v % 16) ∷ hex_encode k

-- hex.Decode takes digits of either case.
unfoldable pub hex_value : ℕ → Option ℕ
hex_value c =
    if leb b'0' c && leb c b'9'
    then some (c - b'0')
    else if leb b'a' c && leb c b'f'
    then some (c - b'a' + 10)
    else if leb b'A' c && leb c b'F'
    then some (c - b'A' + 10)
    else none

abbrev cons_byte : Option ℕ → Option ℕ → Option (List ℕ) → Option (List ℕ)
cons_byte (some h) (some l) (some r) = some ((h * 16 + l) ∷ r)
cons_byte _ _ _ = none

-- An odd length is an error.
unfoldable pub hex_decode : List ℕ → Option (List ℕ)
unfolding hex_value
hex_decode [] = some []
hex_decode (h ∷ []) = none
hex_decode (h ∷ l ∷ r) = cons_byte (hex_value h) (hex_value l) (hex_decode r)

hex_value-hex_digit : (v : ℕ) → v < 16 → hex_value (hex_digit v) ≡ some v
unfolding hex_value hex_digit
hex_value-hex_digit v h = ground arith

pub length-hex_encode : (k : List ℕ) → length (hex_encode k) ≡ 2 * length k
unfolding hex_encode
length-hex_encode [] = omega arith
length-hex_encode (v ∷ k) = omega (arith, length-hex_encode k)

pub hex_decode-hex_encode : (k : List ℕ) → All IsByte k → hex_decode (hex_encode k) ≡ some k
unfolding hex_encode hex_decode
hex_decode-hex_encode [] h = refl
hex_decode-hex_encode (v ∷ k) h =
    rw
      (
        hex_value-hex_digit (v / 16) (omega arith),
        hex_value-hex_digit (v % 16) (omega arith),
        hex_decode-hex_encode k h.1,
      )
      (ground arith)

-- The lower-case form of a hexadecimal digit.
abbrev pub lower : ℕ → ℕ
lower c = if leb b'A' c && leb c b'Z' then c + 32 else c

hex_digit-of_value : (c v : ℕ) → hex_value c ≡ some v → (v < 16) × (hex_digit v ≡ lower c)
unfolding hex_value hex_digit
hex_digit-of_value c v h = ground arith

cons_byte-some :
    (x y : Option ℕ) (r : Option (List ℕ)) (k : List ℕ)
    → cons_byte x y r ≡ some k
    → (a : ℕ) × (b : ℕ) × (t : List ℕ) × (x ≡ some a)
      × (y ≡ some b)
      × (r ≡ some t)
      × (k ≡ (a * 16 + b) ∷ t)
cons_byte-some (some a) (some b) (some t) k h = (a, b, t, refl, refl, refl, ground arith)
cons_byte-some (some a) (some b) none k h = ground arith
cons_byte-some (some a) none r k h = ground arith
cons_byte-some none y r k h = ground arith

-- What decodes was the encoding of the result, up to the case of its letters.
pub hex_encode-hex_decode :
    (s k : List ℕ) → hex_decode s ≡ some k → (hex_encode k ≡ map lower s) × All IsByte k
unfolding hex_encode hex_decode
hex_encode-hex_decode [] k h = ground arith
hex_encode-hex_decode (c ∷ []) k h = ground arith
hex_encode-hex_decode (c ∷ d ∷ s) k h =
    let (a, b, t, x, y, z, e) = cons_byte-some (hex_value c) (hex_value d) (hex_decode s) k h in
    let (fits_a, digit_a) = hex_digit-of_value c a x in
    let (fits_b, digit_b) = hex_digit-of_value d b y in
    let high : (a * 16 + b) / 16 ≡ a = omega arith in
    let low : (a * 16 + b) % 16 ≡ b = omega arith in
    let rest = hex_encode-hex_decode s t z in
    rw (e, high, low, digit_a, digit_b, rest.0) (refl, (omega arith, rest.1))
