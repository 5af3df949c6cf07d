-- ===== src/Backend/Bootstrap/Handshake.antt =====
-- The bootstrap from the announcement to its acknowledgment.
use tailcat_quic.Base.{
  lt→ltb, Option-cases, take, bytes_eq_iff, ℕ, ◌<◌, ◌≡◌, refl, ap₂, ◌∙◌, inl, inr, Bool, true,
  false, Option, none, some, List, arith,
}
use tailcat_quic.Backend.Admission.Outcome.{Meaning, is_admitted, on_meow_outcome}
use tailcat_quic.Backend.Admission.{on_meow}
use tailcat_quic.Backend.Retire.{SessionEvent}
use tailcat_quic.Lease.{SessionStates}
use tailcat_quic.Keys.{KeyCodec, Hmac}
use tailcat_quic.H3.{is_h3_meow, encode_h3_meow, parse_h3_meow, h3_meow_magic}
use tailcat_quic.H3.Authentic.{
  IsUsable, encode_fields, parse_h3_meow-encode_h3_meow, parse_h3_meow_sound,
}
use tailcat_quic.Backend.{Backend}
use tailcat_quic.Backend.Bootstrap.{scheduled, meow_slots, schedule, on_derp_recv, acknowledge}

module _ {N D : Type 0} (node : KeyCodec N) (disco : KeyCodec D) (hmac : Hmac) where
  encode-is_h3_meow :
      (secret : List ℕ) (server client : N) (d : D) (nonce : List ℕ) (reply : Bool)
      → IsUsable node disco hmac secret server client d nonce
      → is_h3_meow (encode_h3_meow node disco hmac secret server client d nonce reply) ≡ true
  unfolding is_h3_meow
  encode-is_h3_meow secret server client d nonce reply u =
      let (size, magic, _, _, _, _, _) =
        encode_fields node disco hmac secret server client d nonce reply u in
      ground (
        arith,
        size,
        bytes_eq_iff (take 4 (encode_h3_meow node disco hmac secret server client d nonce reply))
            h3_meow_magic,
        magic,
      )

  -- What is sent back: to an admitted client an acknowledgment that it accepts, with the discovery key
  -- and nonce of its announcement, and nothing to others.
  abbrev pub Replied : List ℕ → N → N → D → List ℕ → Bool → Option (List ℕ) → Type 0
  Replied secret server src d nonce true reply =
      (ack : List ℕ) × (reply ≡ some ack)
      × (parse_h3_meow node disco hmac ack secret server src true ≡ some (d, nonce))
  Replied secret server src d nonce false reply = reply ≡ none

  acknowledge-Replied :
      (secret : List ℕ) (src : N) (d : D) (nonce : List ℕ) (b : Backend N D) (admitted : Bool)
      → IsUsable node disco hmac secret b.public_key src d nonce
      → Replied secret b.public_key src d nonce admitted
          (acknowledge node disco hmac secret src d nonce b admitted)
  unfolding acknowledge
  acknowledge-Replied secret src d nonce b false u = refl
  acknowledge-Replied secret src d nonce b true u = (
    encode_h3_meow node disco hmac secret b.public_key src d nonce true,
    refl,
    parse_h3_meow-encode_h3_meow node disco hmac secret b.public_key src d nonce true u,
  )

  on_derp_recv-scheduled :
      (secret : List ℕ) (busy : ℕ) (src : N) (d : D) (nonce : List ℕ) (b : Backend N D)
      → IsUsable node disco hmac secret b.public_key src d nonce
      → busy < meow_slots
      → on_derp_recv node disco hmac secret busy src
          (encode_h3_meow node disco hmac secret b.public_key src d nonce false)
          b
        ≡ scheduled d nonce
  unfolding on_derp_recv schedule
  on_derp_recv-scheduled secret busy src d nonce b u free =
      rw
        (
          encode-is_h3_meow secret b.public_key src d nonce false u,
          parse_h3_meow-encode_h3_meow node disco hmac secret b.public_key src d nonce false u,
          lt→ltb busy meow_slots free,
        )
        refl

  -- A usable announcement for this server, made by its source under the common secret, is scheduled
  -- with its own discovery key and nonce while a slot is free. If onMeow then admits the source, which
  -- makes it a client under that discovery key, an acknowledgment is sent, which the client accepts with
  -- that key and nonce; if it refuses, which leaves the clients as they were, nothing is sent. It admits
  -- exactly the sources that the allowlist lets in and that are clients under that key already, or are
  -- new and find room or a client whose retirement succeeds.
  pub bootstrap_completes :
      (states : SessionStates) (secret : List ℕ) (busy : ℕ) (t : ℕ) (es : List (SessionEvent N))
      (u : ℕ) (src : N) (d : D) (nonce : List ℕ) (b : Backend N D)
      → IsUsable node disco hmac secret b.public_key src d nonce
      → busy < meow_slots
      → let result = on_meow node disco states t es u src d b in
        (on_derp_recv node disco hmac secret busy src
            (encode_h3_meow node disco hmac secret b.public_key src d nonce false)
            b
          ≡ scheduled d nonce)
        × Replied secret b.public_key src d nonce result.0
            (acknowledge node disco hmac secret src d nonce b result.0)
        × (result.0 ≡ is_admitted node disco states t es u src d b)
        × Meaning node disco states src d b result
  bootstrap_completes states secret busy t es u src d nonce b usable free = (
    on_derp_recv-scheduled secret busy src d nonce b usable free,
    acknowledge-Replied secret src d nonce b (on_meow node disco states t es u src d b).0 usable,
    (on_meow_outcome node disco states t es u src d b).0,
    (on_meow_outcome node disco states t es u src d b).1,
  )

  -- Only an announcement made for this server and its source under the server's secret is scheduled,
  -- with its own discovery key and nonce; all other packets are discarded or left to others.
  pub on_derp_recv_sound :
      (secret : List ℕ) (busy : ℕ) (src : N) (pkt : List ℕ) (b : Backend N D) (d : D)
      (nonce : List ℕ)
      → on_derp_recv node disco hmac secret busy src pkt b ≡ scheduled d nonce
      → (pkt ≡ encode_h3_meow node disco hmac secret b.public_key src d nonce false)
        × (busy < meow_slots)
  unfolding on_derp_recv schedule
  on_derp_recv_sound secret busy src pkt b d nonce h =
      elim (Option-cases (parse_h3_meow node disco hmac pkt secret b.public_key src false)) [
        | inl e ↦ absurd (ground (arith, e))
        | inr ((d', n'), e) ↦
            let same : (d' ≡ d) × (n' ≡ nonce) = (ground (arith, e), ground (arith, e)) in
            (
              (parse_h3_meow_sound node disco hmac pkt secret b.public_key src false d nonce
                  (e ∙ ap₂ (λ x y. some (x, y)) same.0 same.1)).0,
              ground (arith, e),
            )
      ]
