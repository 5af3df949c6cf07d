-- ===== src/Disco/RoundTrip.antt =====
-- The legacy meow ping is read back exactly, and only from packets of its own layout.
use tailcat_quic.Base.{
  length, get_or, All, IsByte, take, drop, length-append, length-take, length-drop, take-two_fields,
  take-drop-two_fields, three_fields, drop-drop, ℕ, ◌≤◌, ◌≡◌, sym, ap, ◌∙◌, true, false, some, List,
  [], ◌∷◌, ◌++◌, append_assoc, arith, zero, suc,
}
use tailcat_quic.Keys.{KeyCodec}
use tailcat_quic.Disco.{
  encode_meow_ping, parse_meow_ping, is_meow_packet, meow_magic, meow_type_ping,
}

module _ {N D : Type 0} (node : KeyCodec N) (disco : KeyCodec D) where
  -- A ping with a disco key that is not zero, and any bytes after it, is read back.
  pub parse_meow_ping-encode :
      (n : N) (d : D) (rest : List ℕ)
      → disco.is_zero d ≡ false
      → parse_meow_ping node disco (encode_meow_ping node disco n d ++ rest) ≡ some (n, d)
  unfolding parse_meow_ping encode_meow_ping
  parse_meow_ping-encode n d rest h = rw (append_assoc (node.raw n) (disco.raw d) rest) (
      ground (
        arith,
        h,
        length-append (node.raw n) (disco.raw d ++ rest),
        length-append (disco.raw d) rest,
        node.length-raw n,
        disco.length-raw d,
        take-two_fields 32 32 (node.raw n) (disco.raw d) rest (node.length-raw n)
            (disco.length-raw d),
        take-drop-two_fields 32 32 (node.raw n) (disco.raw d) rest (node.length-raw n)
            (disco.length-raw d),
        node.from_raw-raw n,
        disco.from_raw-raw d,
      ))

  -- The facts behind an accepted ping.
  parse_meow_ping-some :
      (pkt : List ℕ) (n : N) (d : D)
      → parse_meow_ping node disco pkt ≡ some (n, d)
      → (69 ≤ length pkt)
        × (get_or pkt 4 0 ≡ 1)
        × (node.from_raw (take 32 (drop 5 pkt)) ≡ n)
        × (disco.from_raw (take 32 (drop 37 pkt)) ≡ d)
        × (disco.is_zero d ≡ false)
  unfolding parse_meow_ping
  parse_meow_ping-some pkt n d h = ground arith

  All-take : (n : ℕ) (b : List ℕ) → All IsByte b → All IsByte (take n b)
  All-take zero b h = tt
  All-take (suc n) [] h = tt
  All-take (suc n) (x ∷ b) h = (h.0, All-take n b h.1)

  All-drop : (n : ℕ) (b : List ℕ) → All IsByte b → All IsByte (drop n b)
  All-drop zero b h = h
  All-drop (suc n) [] h = tt
  All-drop (suc n) (x ∷ b) h = All-drop n b h.1

  raw_fields :
      (body : List ℕ) (n : N) (d : D)
      → All IsByte body
      → 64 ≤ length body
      → node.from_raw (take 32 body) ≡ n
      → disco.from_raw (take 32 (drop 32 body)) ≡ d
      → body ≡ (node.raw n ++ disco.raw d) ++ drop 64 body
  raw_fields body n d bytes h e f =
      rw
        (
          ← e,
          ← f,
          node.raw-from_raw (take 32 body) (omega (arith, length-take 32 body))
              (All-take 32 body bytes),
          disco.raw-from_raw (take 32 (drop 32 body))
              (omega (arith, length-take 32 (drop 32 body), length-drop 32 body))
              (All-take 32 (drop 32 body) (All-drop 32 body bytes)),
          ← drop-drop 32 32 body,
        )
        (sym (three_fields 32 32 body))

  head_is_ping :
      (a b c e t : ℕ) (body : List ℕ)
      → is_meow_packet (a ∷ b ∷ c ∷ e ∷ t ∷ body) ≡ true
      → t ≡ 1
      → a ∷ b ∷ c ∷ e ∷ t ∷ body ≡ meow_magic ++ meow_type_ping ∷ body
  unfolding is_meow_packet
  head_is_ping a b c e t body m h = ground arith

  -- A packet of bytes with the magic that the parser accepts is the encoding of the keys that it
  -- returns, followed by bytes that it ignores, and the disco key is not zero.
  pub parse_meow_ping_sound :
      (pkt : List ℕ) (n : N) (d : D)
      → All IsByte pkt
      → is_meow_packet pkt ≡ true
      → parse_meow_ping node disco pkt ≡ some (n, d)
      → (pkt ≡ encode_meow_ping node disco n d ++ drop 69 pkt) × (disco.is_zero d ≡ false)
  unfolding encode_meow_ping
  parse_meow_ping_sound (a ∷ b ∷ c ∷ e ∷ t ∷ body) n d bytes m h =
      let (long, tag, x, y, z) = parse_meow_ping-some (a ∷ b ∷ c ∷ e ∷ t ∷ body) n d h in
      (
        head_is_ping a b c e t body m tag
            ∙ ap (λ r. meow_magic ++ meow_type_ping ∷ r)
                (raw_fields body n d bytes.1.1.1.1.1 (omega arith) x y),
        z,
      )
  parse_meow_ping_sound (a ∷ b ∷ c ∷ e ∷ []) n d bytes m h =
      absurd (omega (arith, (parse_meow_ping-some (a ∷ b ∷ c ∷ e ∷ []) n d h).0))
  parse_meow_ping_sound (a ∷ b ∷ c ∷ []) n d bytes m h =
      absurd (omega (arith, (parse_meow_ping-some (a ∷ b ∷ c ∷ []) n d h).0))
  parse_meow_ping_sound (a ∷ b ∷ []) n d bytes m h =
      absurd (omega (arith, (parse_meow_ping-some (a ∷ b ∷ []) n d h).0))
  parse_meow_ping_sound (a ∷ []) n d bytes m h =
      absurd (omega (arith, (parse_meow_ping-some (a ∷ []) n d h).0))
  parse_meow_ping_sound [] n d bytes m h = absurd (omega (arith, (parse_meow_ping-some [] n d h).0))
