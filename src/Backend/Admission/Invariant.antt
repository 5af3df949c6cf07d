-- ===== src/Backend/Admission/Invariant.antt =====
-- Every announcement keeps the invariant of the server's clients.
use tailcat_quic.Base.{
  leb, Bool-cases, Option-cases, length, lookup-erase, length-erase-present, ℕ, ◌<◌, ◌≡◌, inl, inr,
  none, some, List, arith,
}
use tailcat_quic.Keys.{KeyCodec}
use tailcat_quic.H3.{h3_max_clients}
use tailcat_quic.Lease.{SessionStates}
use tailcat_quic.Backend.{Backend}
use tailcat_quic.Backend.Retire.{SessionEvent, lookup_key, retire_h3_client_locked}
use tailcat_quic.Backend.Retire.Oldest.{late, without, retire-cases}
use tailcat_quic.Backend.Admission.{is_ignored, admit_after, meow_from_new, on_meow}
use tailcat_quic.Backend.Admission.Clients.{Inv, client_of_lease, late-Inv, without-Inv, admit-Inv}

module _ {N D : Type 0} (node : KeyCodec N) (disco : KeyCodec D) (states : SessionStates) where
  retire-Inv :
      (now : ℕ) (es : List (SessionEvent N)) (b : Backend N D)
      → Inv node b
      → Inv node (retire_h3_client_locked node states now es b).1
  retire-Inv now es b v = elim (retire-cases node states now es b) [
    | inl e ↦ rw e (late-Inv node disco states es b v)
    | inr (k, o, l, found, at, free, e) ↦ rw e (
        without-Inv node disco states k (late node states es b) (late-Inv node disco states es b v))
  ]

  -- After a retirement there is room.
  retire-room :
      (es : List (SessionEvent N)) (b : Backend N D) (k : N) (l : ℕ)
      → Inv node b
      → lookup_key node k (late node states es b).client_leases ≡ some l
      → length (without node states k (late node states es b)).clients < h3_max_clients
  retire-room es b k l v h =
      let (n, e) =
        client_of_lease node (late node states es b) k l (late-Inv node disco states es b v) h in
      omega (arith, v.bounded, length-erase-present ⦃e = node.eq⦄ k n b.clients e)

  -- And the source is still no client.
  retire-fresh :
      (es : List (SessionEvent N)) (b : Backend N D) (k src : N)
      → lookup_key node src b.clients ≡ none
      → lookup_key node src (without node states k (late node states es b)).clients ≡ none
  retire-fresh es b k src h = ground (arith, lookup-erase ⦃e = node.eq⦄ k src b.clients)

  meow_from_new-Inv :
      (scan_time : ℕ) (es : List (SessionEvent N)) (lease_time : ℕ) (src : N) (d : D)
      (b : Backend N D)
      → Inv node b
      → lookup_key node src b.clients ≡ none
      → Inv node (meow_from_new node disco states scan_time es lease_time src d b).1
  unfolding meow_from_new admit_after
  meow_from_new-Inv t es u src d b v fresh =
      elim (Bool-cases (leb h3_max_clients (length b.clients))) [
        | inr room ↦ rw room (admit-Inv node disco states src d u b v fresh (ground arith))
        | inl full ↦ elim (retire-cases node states t es b) [
          | inl e ↦ rw (full, e) (late-Inv node disco states es b v)
          | inr (k, o, l, found, at, free, e) ↦
              rw (full, e)
                (admit-Inv node disco states src d u (without node states k (late node states es b))
                  (without-Inv node disco states k (late node states es b)
                    (late-Inv node disco states es b v))
                  (retire-fresh es b k src fresh) (retire-room es b k l v at))
        ]
      ]

  -- Every announcement keeps the invariant, whatever callbacks run in between: at most 256 clients,
  -- a lease for each client and for nobody else, each client with its own key, its own single source
  -- address and an ID that was given out before, and no ID twice.
  pub on_meow-Inv :
      (scan_time : ℕ) (es : List (SessionEvent N)) (lease_time : ℕ) (src : N) (d : D)
      (b : Backend N D)
      → Inv node b
      → Inv node (on_meow node disco states scan_time es lease_time src d b).1
  unfolding on_meow
  on_meow-Inv t es u src d b v =
      elim (Bool-cases (is_ignored node disco states b.allowed_clients src)) [
        | inl e ↦ rw e v
        | inr e ↦ elim (Option-cases (lookup_key node src b.clients)) [
          | inl f ↦ rw (e, f) (meow_from_new-Inv t es u src d b v f)
          | inr (n, f) ↦ rw (e, f) v
        ]
      ]
