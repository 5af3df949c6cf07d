-- ===== src/H3.antt =====
-- h3.go: the authenticated H3 bootstrap announcement and its acknowledgment.
pub mod Authentic
use tailcat_quic.Base.{
  ltb, leb, ◌==◌, if◌then◌else◌, ltb→lt, lt→ltb, leb→le, ==_iff, Bool-cases, Option-cases, Eq, beq,
  beq_refl, eq_of_beq, not_rejected, was_required, or-eq_false, not-eq_false, some-eq, length,
  get_elem?, get_or, take, drop, replicate, length-append, take-append-drop, length-take,
  length-drop, take-length_append, drop-length_append, take-of_length, drop-of_length,
  length-replicate, All, any, take-two_fields, take-drop-two_fields, drop-drop-two_fields,
  three_fields, drop-drop, four_fields, codes, bytes_eq, bytes_eq_sound, bytes_eq_self,
  bytes_eq_iff, slice, has_prefix, IsByte, lookup, insert, erase, lookup-insert, lookup-erase,
  length-erase-le, length-erase-present, length-insert-absent, ℕ, zero, suc, ◌+◌, ◌-◌, ◌*◌, ◌/◌,
  ◌%◌, ◌^◌, ◌≤◌, ◌<◌, max, min, compare, Ordering, ◌≡◌, refl, sym, ap, ap₂, ◌∙◌, subst, ◌≢◌, ◌↔◌,
  ◌⊎◌, inl, inr, Bool, true, false, not, ◌&&◌, ◌||◌, Option, none, some, List, [], ◌∷◌, ◌++◌, map,
  append_assoc, append-nil, arith, ℕ_discrete,
}
use tailcat_quic.Keys.{KeyCodec, Hmac}
use tailcat_quic.Secret
use tailcat_quic.Secret.{is_zero}

abbrev pub h3_meow_size : ℕ
h3_meow_size = 4 + 1 + 32 + 32 + 32 + 32

abbrev pub h3_max_clients : ℕ
h3_max_clients = 256

abbrev pub h3_meow_magic : List ℕ
h3_meow_magic = codes "mh3" ++ 1 ∷ []

abbrev pub label : List ℕ
label = codes "tailcat-h3/bootstrap/v1" ++ 0 ∷ []

abbrev pub direction : Bool → ℕ
direction reply = if reply then 2 else 1

unfoldable pub is_h3_meow : List ℕ → Bool
is_h3_meow p = leb 4 (length p) && bytes_eq (take 4 p) h3_meow_magic

module _ {N D : Type 0} (node : KeyCodec N) (disco : KeyCodec D) (hmac : Hmac) where
  -- The packet without its tag.
  pub announcement : N → D → List ℕ → Bool → List ℕ
  announcement client d nonce reply =
      h3_meow_magic ++ direction reply ∷ (node.raw client ++ (disco.raw d ++ nonce))

  -- Go's nil result is the empty list.
  pub encode_h3_meow : List ℕ → N → N → D → List ℕ → Bool → List ℕ
  unfolding announcement
  encode_h3_meow secret server client d nonce reply =
      if is_zero secret
        || (node.is_zero server || (node.is_zero client || (disco.is_zero d || is_zero nonce)))
      then []
      else (let p = announcement client d nonce reply in
          p ++ hmac.tag secret (label ++ (node.raw server ++ p)))

  -- The first guard of the parser: size, magic, and zero arguments.
  pub is_refused : List ℕ → List ℕ → N → N → Bool
  is_refused p secret server expected_client =
      not (length p == h3_meow_size)
      || (not (is_h3_meow p)
          || (is_zero secret || (node.is_zero server || node.is_zero expected_client)))

  -- The second guard: the direction and the client.
  pub is_misdirected : List ℕ → N → Bool → Bool
  is_misdirected p expected_client reply =
      not (get_or p 4 0 == direction reply)
      || not (node.eq.beq (node.from_raw (slice p 5 37)) expected_client)

  -- The rest of the parser, from the two fields that it reads.
  pub check_tag : List ℕ → List ℕ → N → N → Bool → D → List ℕ → Option (D × List ℕ)
  check_tag p secret server expected_client reply d nonce =
      if disco.is_zero d || is_zero nonce
      then none
      else if bytes_eq p (encode_h3_meow secret server expected_client d nonce reply)
      then some (d, nonce)
      else none

  pub parse_h3_meow : List ℕ → List ℕ → N → N → Bool → Option (D × List ℕ)
  parse_h3_meow p secret server expected_client reply =
      if is_refused p secret server expected_client
      then none
      else if is_misdirected p expected_client reply
      then none
      else check_tag p secret server expected_client reply (disco.from_raw (slice p 37 69))
          (slice p 69 101)
