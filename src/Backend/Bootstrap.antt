-- ===== src/Backend/Bootstrap.antt =====
-- tailcat.go: onDERPRecv of a server, which checks a bootstrap packet and schedules its admission, and
-- the scheduled work, which acknowledges an admitted client.
pub mod Handshake
use tailcat_quic.Base.{
  ltb, leb, ◌==◌, if◌then◌else◌, ltb→lt, lt→ltb, leb→le, ==_iff, Bool-cases, Option-cases, Eq, beq,
  beq_refl, eq_of_beq, not_rejected, was_required, or-eq_false, not-eq_false, some-eq, length,
  get_elem?, get_or, take, drop, replicate, length-append, take-append-drop, length-take,
  length-drop, take-length_append, drop-length_append, take-of_length, drop-of_length,
  length-replicate, All, any, take-two_fields, take-drop-two_fields, drop-drop-two_fields,
  three_fields, drop-drop, four_fields, codes, bytes_eq, bytes_eq_sound, bytes_eq_self,
  bytes_eq_iff, slice, has_prefix, IsByte, lookup, insert, erase, lookup-insert, lookup-erase,
  length-erase-le, length-erase-present, length-insert-absent, ℕ, zero, suc, ◌+◌, ◌-◌, ◌*◌, ◌/◌,
  ◌%◌, ◌^◌, ◌≤◌, ◌<◌, max, min, compare, Ordering, ◌≡◌, refl, sym, ap, ap₂, ◌∙◌, subst, ◌≢◌, ◌↔◌,
  ◌⊎◌, inl, inr, Bool, true, false, not, ◌&&◌, ◌||◌, Option, none, some, List, [], ◌∷◌, ◌++◌, map,
  append_assoc, append-nil, arith, ℕ_discrete,
}
use tailcat_quic.Keys.{KeyCodec, Hmac}
use tailcat_quic.Disco.{is_meow_packet}
use tailcat_quic.H3.{is_h3_meow, encode_h3_meow, parse_h3_meow}
use tailcat_quic.Lease.{SessionStates}
use tailcat_quic.Backend.{Backend, Effect}
use tailcat_quic.Backend.Retire.{SessionEvent}
use tailcat_quic.Backend.Admission.{on_meow}

-- What becomes of a packet: left to others, discarded, or scheduled for admission.
pub data Reaction (D : Type 0) : Type 0 where
  not_ours discarded : Reaction D
  scheduled : D → List ℕ → Reaction D

-- The capacity of meowSlots.
abbrev pub meow_slots : ℕ
meow_slots = 32

module _ {N D : Type 0} (node : KeyCodec N) (disco : KeyCodec D) (hmac : Hmac) where
  -- A packet that passed the check takes a free slot, or is discarded.
  unfoldable pub schedule : ℕ → Option (D × List ℕ) → Reaction D
  schedule busy none = discarded
  schedule busy (some (disco_pub, nonce)) =
      if ltb busy meow_slots then scheduled disco_pub nonce else discarded

  -- onDERPRecv, with the number of busy slots.
  unfoldable pub on_derp_recv : List ℕ → ℕ → N → List ℕ → Backend N D → Reaction D
  unfolding schedule
  on_derp_recv secret busy src pkt b =
      if not (is_h3_meow pkt)
      then (if is_meow_packet pkt then discarded else not_ours)
      else schedule busy (parse_h3_meow node disco hmac pkt secret b.public_key src false)

  -- The acknowledgment of the scheduled work, by the result of onMeow.
  unfoldable pub acknowledge : List ℕ → N → D → List ℕ → Backend N D → Bool → Option (List ℕ)
  acknowledge secret src disco_pub nonce b false = none
  acknowledge secret src disco_pub nonce b true =
      some (encode_h3_meow node disco hmac secret b.public_key src disco_pub nonce true)
