-- ===== src/H3/Authentic.antt =====
-- What an accepted announcement proves, and that every announcement made is accepted.
use tailcat_quic.Base.{
  length, get_or, take, drop, length-take, length-drop, four_fields, bytes_eq_sound, bytes_eq_self,
  bytes_eq_iff, slice, ℕ, ◌≡◌, refl, sym, ap, ap₂, ◌∙◌, Bool, false, some, List, ◌++◌, arith,
}
use tailcat_quic.Keys.{KeyCodec, Hmac, raw-injective}
use tailcat_quic.Secret.{is_zero}
use tailcat_quic.H3.{
  is_h3_meow, is_refused, is_misdirected, check_tag, announcement, encode_h3_meow, parse_h3_meow,
  direction, label, h3_meow_magic,
}

module _ {N D : Type 0} (node : KeyCodec N) (disco : KeyCodec D) (hmac : Hmac) where
  -- What the code needs of the arguments to produce an announcement.
  pub record IsUsable (secret : List ℕ) (server client : N) (d : D) (nonce : List ℕ) : Type 0 where
    pub secret_set : is_zero secret ≡ false
    pub server_set : node.is_zero server ≡ false
    pub client_set : node.is_zero client ≡ false
    pub disco_set : disco.is_zero d ≡ false
    pub nonce_set : is_zero nonce ≡ false
    pub nonce_len : length nonce ≡ 32

  encode-of_IsUsable :
      (secret : List ℕ) (server client : N) (d : D) (nonce : List ℕ) (reply : Bool)
      → IsUsable secret server client d nonce
      → encode_h3_meow node disco hmac secret server client d nonce reply
        ≡ announcement node disco hmac client d nonce reply
          ++ hmac.tag secret
              (label ++ (node.raw server ++ announcement node disco hmac client d nonce reply))
  unfolding encode_h3_meow
  encode-of_IsUsable secret server client d nonce reply u = ground (arith, u)

  check_tag-some :
      (p secret : List ℕ) (server client : N) (reply : Bool) (d d' : D) (nonce nonce' : List ℕ)
      → check_tag node disco hmac p secret server client reply d nonce ≡ some (d', nonce')
      → (p ≡ encode_h3_meow node disco hmac secret server client d nonce reply)
        × (d ≡ d')
        × (nonce ≡ nonce')
        × (disco.is_zero d ≡ false)
        × (is_zero nonce ≡ false)
  unfolding check_tag
  check_tag-some p secret server client reply d d' nonce nonce' h =
      ground (
        arith,
        bytes_eq_sound p (encode_h3_meow node disco hmac secret server client d nonce reply),
      )

  not-is_refused :
      (p secret : List ℕ) (server client : N)
      → is_refused node disco hmac p secret server client ≡ false
      → (length p ≡ 133)
        × (is_zero secret ≡ false)
        × (node.is_zero server ≡ false)
        × (node.is_zero client ≡ false)
  unfolding is_refused
  not-is_refused p secret server client h = ground arith

  -- The facts behind an accepted packet.
  parse-some :
      (p secret : List ℕ) (server client : N) (reply : Bool) (d : D) (nonce : List ℕ)
      → parse_h3_meow node disco hmac p secret server client reply ≡ some (d, nonce)
      → (is_refused node disco hmac p secret server client ≡ false)
        × (is_misdirected node disco hmac p client reply ≡ false)
        × (check_tag node disco hmac p secret server client reply
              (disco.from_raw (slice p 37 69))
              (slice p 69 101)
            ≡ some (d, nonce))
  unfolding parse_h3_meow
  parse-some p secret server client reply d nonce h = ground arith

  -- A packet is accepted only if it is the announcement of its own content for this secret, server,
  -- client and direction.
  pub parse_h3_meow_sound :
      (p secret : List ℕ) (server client : N) (reply : Bool) (d : D) (nonce : List ℕ)
      → parse_h3_meow node disco hmac p secret server client reply ≡ some (d, nonce)
      → (p ≡ encode_h3_meow node disco hmac secret server client d nonce reply)
        × IsUsable secret server client d nonce
  parse_h3_meow_sound p secret server client reply d nonce h =
      let (admitted, _, tagged) = parse-some p secret server client reply d nonce h in
      let (size, a, b, c) = not-is_refused p secret server client admitted in
      let (same, ed, en, e, f) =
        check_tag-some p secret server client reply (disco.from_raw (slice p 37 69)) d
          (slice p 69 101) nonce tagged in
      (
        same ∙ ap₂ (λ x y. encode_h3_meow node disco hmac secret server client x y reply) ed en,
        record {
          secret_set = a;
          server_set = b;
          client_set = c;
          disco_set = ap disco.is_zero (sym ed) ∙ e;
          nonce_set = ap is_zero (sym en) ∙ f;
          nonce_len =
              ap length (sym en) ∙ omega (arith, length-take 32 (drop 69 p), length-drop 69 p);
        },
      )

  module _ (secret : List ℕ) (server client : N) (d : D) (nonce : List ℕ) (reply : Bool) where
    -- The tag that closes an announcement.
    pub closing_tag : List ℕ
    closing_tag =
        hmac.tag secret
          (label ++ (node.raw server ++ announcement node disco hmac client d nonce reply))

    -- An announcement, field by field.
    pub encode_fields :
        IsUsable secret server client d nonce
        → let p = encode_h3_meow node disco hmac secret server client d nonce reply in
          (length p ≡ 133)
          × (take 4 p ≡ h3_meow_magic)
          × (get_or p 4 0 ≡ direction reply)
          × (slice p 5 37 ≡ node.raw client)
          × (slice p 37 69 ≡ disco.raw d)
          × (slice p 69 101 ≡ nonce)
          × (slice p 101 133 ≡ closing_tag)
    unfolding announcement closing_tag
    encode_fields u =
        let (size, a, b, c, e) =
          four_fields 32 (node.raw client) (disco.raw d) nonce closing_tag (node.length-raw client)
            (disco.length-raw d) u.nonce_len (hmac.length-tag secret _) in
        rw (encode-of_IsUsable secret server client d nonce reply u)
          (omega (arith, size), refl, refl, a, b, c, e)

  -- The guards pass on an announcement for its own client and direction.
  encode-passes :
      (secret : List ℕ) (server client : N) (d : D) (nonce : List ℕ) (reply : Bool)
      → IsUsable secret server client d nonce
      → let p = encode_h3_meow node disco hmac secret server client d nonce reply in
        (is_refused node disco hmac p secret server client ≡ false)
        × (is_misdirected node disco hmac p client reply ≡ false)
  unfolding is_refused is_misdirected is_h3_meow
  encode-passes secret server client d nonce reply u =
      let (size, magic, dir, c, _, _, _) = encode_fields secret server client d nonce reply u in
      (
        ground (
          arith,
          size,
          u,
          bytes_eq_iff (take 4 (encode_h3_meow node disco hmac secret server client d nonce reply))
              h3_meow_magic,
        ),
        ground (arith, dir, c, node.from_raw-raw client, node.eq.beq_iff client client),
      )

  check_tag_self :
      (secret : List ℕ) (server client : N) (d : D) (nonce : List ℕ) (reply : Bool)
      → IsUsable secret server client d nonce
      → check_tag node disco hmac
          (encode_h3_meow node disco hmac secret server client d nonce reply)
          secret
          server
          client
          reply
          d
          nonce
        ≡ some (d, nonce)
  unfolding check_tag
  check_tag_self secret server client d nonce reply u =
      ground (
        arith,
        u,
        bytes_eq_self (encode_h3_meow node disco hmac secret server client d nonce reply),
      )

  -- Every announcement made is accepted by a peer with the same secret, and read back exactly.
  pub parse_h3_meow-encode_h3_meow :
      (secret : List ℕ) (server client : N) (d : D) (nonce : List ℕ) (reply : Bool)
      → IsUsable secret server client d nonce
      → parse_h3_meow node disco hmac
          (encode_h3_meow node disco hmac secret server client d nonce reply)
          secret
          server
          client
          reply
        ≡ some (d, nonce)
  unfolding parse_h3_meow
  parse_h3_meow-encode_h3_meow secret server client d nonce reply u =
      let (_, _, _, _, dd, nn, _) = encode_fields secret server client d nonce reply u in
      let (a, b) = encode-passes secret server client d nonce reply u in
      rw (a, b, dd, nn, disco.from_raw-raw d) (check_tag_self secret server client d nonce reply u)

  direction-injective : (a b : Bool) → direction a ≡ direction b → a ≡ b
  direction-injective a b h = ground arith

  -- No reflection and no substitution: an announcement that someone made, under whatever secret and
  -- for whatever server, is accepted only as what it is: for the client it names, in its own
  -- direction, with its own discovery key and nonce, and only if the tag under the verifier's secret
  -- and server is the tag it carries.
  pub parse_h3_meow_binds :
      (secret secret' : List ℕ) (server server' client client' : N) (d d' : D)
      (nonce nonce' : List ℕ) (reply reply' : Bool)
      → IsUsable secret' server' client' d' nonce'
      → parse_h3_meow node disco hmac
          (encode_h3_meow node disco hmac secret' server' client' d' nonce' reply')
          secret
          server
          client
          reply
        ≡ some (d, nonce)
      → (reply ≡ reply')
        × (client ≡ client')
        × (d ≡ d')
        × (nonce ≡ nonce')
        × (closing_tag secret server client d nonce reply
            ≡ closing_tag secret' server' client' d' nonce' reply')
  parse_h3_meow_binds secret secret' server server' client client' d d' nonce nonce' reply reply' u
        h =
      let made = encode_h3_meow node disco hmac secret' server' client' d' nonce' reply' in
      let (same, v) = parse_h3_meow_sound made secret server client reply d nonce h in
      let (_, _, dir, c, k, n, t) = encode_fields secret server client d nonce reply v in
      let (_, _, dir', c', k', n', t') = encode_fields secret' server' client' d' nonce' reply' u in
      (
        direction-injective reply reply' (sym dir ∙ ap (λ p. get_or p 4 0) (sym same) ∙ dir'),
        raw-injective node client client' (sym c ∙ ap (λ p. slice p 5 37) (sym same) ∙ c'),
        raw-injective disco d d' (sym k ∙ ap (λ p. slice p 37 69) (sym same) ∙ k'),
        sym n ∙ ap (λ p. slice p 69 101) (sym same) ∙ n',
        sym t ∙ ap (λ p. slice p 101 133) (sym same) ∙ t',
      )
