-- ===== src/Backend/Admission/Outcome.antt =====
-- What the result of onMeow says, whom it evicts, and when it refuses for want of room.
use tailcat_quic.Base.{
  leb, Bool-cases, Option-cases, length, ℕ, ◌+◌, max, ◌≡◌, refl, inl, inr, Bool, true, false, not,
  ◌&&◌, Option, none, some, List, [],
}
use tailcat_quic.Keys.{KeyCodec}
use tailcat_quic.H3.{h3_max_clients}
use tailcat_quic.Lease.{SessionStates}
use tailcat_quic.Backend.{Node, Backend, Effect}
use tailcat_quic.Backend.Retire.{SessionEvent, lookup_key, retire_h3_client_locked}
use tailcat_quic.Backend.Retire.Oldest.{late, without, retire-cases}
use tailcat_quic.Backend.Admission.{
  is_ignored, client_node, admit, admit_after, meow_from_new, on_meow,
}
use tailcat_quic.Backend.Admission.Eviction.{lookup-admit_self}

module _ {N D : Type 0} (node : KeyCodec N) (disco : KeyCodec D) (states : SessionStates) where
  -- What an outcome means: a client with the announced discovery key, or nobody new and no effect.
  abbrev pub Meaning : N → D → Backend N D → Bool × Backend N D × List (Effect N D) → Type 0
  Meaning src d b (true, b', effects) =
      (n : Node N D) × (lookup_key node src b'.clients ≡ some n) × (n.disco_key ≡ d)
  Meaning src d b (false, b', effects) = (b'.clients ≡ b.clients) × (effects ≡ [])

  admit-Meaning :
      (src : N) (d : D) (u : ℕ) (b : Backend N D)
      → (n : Node N D) × (lookup_key node src (admit node disco states src d u b).1.clients
          ≡ some n)
        × (n.disco_key ≡ d)
  unfolding client_node
  admit-Meaning src d u b = (
    client_node node disco states (max (b.next_client_id + 1) 2) src d b.derp_region,
    lookup-admit_self node disco states src d u b,
    refl,
  )

  module _ (t : ℕ) (es : List (SessionEvent N)) (u : ℕ) (src : N) (d : D) (b : Backend N D) where
    new-Meaning : Meaning src d b (meow_from_new node disco states t es u src d b)
    unfolding meow_from_new admit_after admit
    new-Meaning = elim (Bool-cases (leb h3_max_clients (length b.clients))) [
      | inr room ↦ rw room (admit-Meaning src d u b)
      | inl full ↦ elim (retire-cases node states t es b) [
        | inl e ↦ rw (full, e) (refl, refl)
        | inr (c, o, l, found, at, free, e) ↦
            rw (full, e) (admit-Meaning src d u (without node states c (late node states es b)))
      ]
    ]

    known-Meaning :
        (n : Node N D)
        → lookup_key node src b.clients ≡ some n
        → Meaning src d b (disco.eq.beq n.disco_key d, b, [])
    known-Meaning n f = elim (Bool-cases (disco.eq.beq n.disco_key d)) [
      | inl same ↦ rw same (n, f, (disco.eq.beq_iff n.disco_key d).0 same)
      | inr other ↦ rw other (refl, refl)
    ]

    -- Whether a client that is new finds room, or somebody to retire.
    abbrev finds_room : Bool → Option N → Bool
    finds_room false retired = true
    finds_room true none = false
    finds_room true (some retired) = true

    -- Whether a source that the allowlist lets in is admitted, by the client that it is already.
    abbrev is_welcome : Option (Node N D) → Bool
    is_welcome (some n) = disco.eq.beq n.disco_key d
    is_welcome none =
        finds_room (leb h3_max_clients (length b.clients))
          (retire_h3_client_locked node states t es b).0

    -- Whether onMeow admits the source.
    abbrev pub is_admitted : Bool
    is_admitted =
        not (is_ignored node disco states b.allowed_clients src)
        && is_welcome (lookup_key node src b.clients)

    new-admitted :
        (meow_from_new node disco states t es u src d b).0
        ≡ finds_room
            (leb h3_max_clients (length b.clients))
            (retire_h3_client_locked node states t es b).0
    unfolding meow_from_new admit_after admit
    new-admitted = elim (Bool-cases (leb h3_max_clients (length b.clients))) [
      | inr room ↦ rw room refl
      | inl full ↦ elim (retire-cases node states t es b) [
        | inl e ↦ rw (full, e) refl
        | inr (c, o, l, found, at, free, e) ↦ rw (full, e) refl
      ]
    ]

    -- An announcement is admitted exactly if the allowlist does not leave its source out, and the source
    -- is a client under the announced discovery key already, or is no client and finds fewer than 256
    -- clients or one whose retirement succeeds. On success the source is among the clients, under the
    -- announced discovery key; on refusal the clients are those before and no call has been made.
    pub on_meow_outcome :
        ((on_meow node disco states t es u src d b).0 ≡ is_admitted)
        × Meaning src d b (on_meow node disco states t es u src d b)
    unfolding on_meow
    on_meow_outcome = elim (Bool-cases (is_ignored node disco states b.allowed_clients src)) [
      | inl e ↦ rw e (refl, (refl, refl))
      | inr e ↦ elim (Option-cases (lookup_key node src b.clients)) [
        | inl f ↦ rw (e, f) (new-admitted, new-Meaning)
        | inr (m, f) ↦ rw (e, f) (refl, known-Meaning m f)
      ]
    ]
