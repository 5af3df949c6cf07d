-- ===== src/Secret/RoundTrip.antt =====
-- The text and binary forms of a connection secret.
use tailcat_quic.Base.{
  length, take, drop, length-drop, codes, bytes_eq_iff, ℕ, suc, ◌*◌, ◌≡◌, refl, ap, some, List, [],
  ◌∷◌, ◌++◌, map, arith,
}
use tailcat_quic.Secret.{IsSecret, marshal_text, unmarshal_text}
use tailcat_quic.Secret.Hex.{
  hex_decode, lower, length-hex_encode, hex_decode-hex_encode, hex_encode-hex_decode,
}

length-map-lower : (s : List ℕ) → length (map lower s) ≡ length s
length-map-lower [] = refl
length-map-lower (c ∷ s) = ap suc (length-map-lower s)

accepted :
    (x p : List ℕ)
    → unmarshal_text x ≡ some p
    → (length x ≡ 68) × (take 4 x ≡ codes "psk:") × (hex_decode (drop 4 x) ≡ some p)
unfolding unmarshal_text
accepted x p h = ground (arith, bytes_eq_iff (take 4 x) (codes "psk:"))

-- Every secret is read back from its text form.
pub unmarshal_text-marshal_text :
    (p : List ℕ) → IsSecret p → unmarshal_text (marshal_text p) ≡ some p
unfolding marshal_text unmarshal_text
unmarshal_text-marshal_text p v =
    ground (arith, length-hex_encode p, hex_decode-hex_encode p v.bytes)

hex_decode-length : (s k : List ℕ) → hex_decode s ≡ some k → length s ≡ 2 * length k
hex_decode-length s k h =
    omega
      (arith, ap length (hex_encode-hex_decode s k h).0, length-hex_encode k, length-map-lower s)

-- Only the encodings of 32-byte secrets are read, the digits in either case.
pub unmarshal_text_sound :
    (x p : List ℕ)
    → unmarshal_text x ≡ some p
    → IsSecret p
      × (marshal_text p ≡ codes "psk:" ++ map lower (drop 4 x))
      × (take 4 x ≡ codes "psk:")
unfolding marshal_text unmarshal_text
unmarshal_text_sound x p h =
    let (size, tag, decoded) = accepted x p h in
    let (same, bytes) = hex_encode-hex_decode (drop 4 x) p decoded in
    (
      record {
        len = omega (arith, hex_decode-length (drop 4 x) p decoded, length-drop 4 x);
        bytes = bytes;
      },
      rw same,
      tag,
    )
