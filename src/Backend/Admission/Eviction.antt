-- ===== src/Backend/Admission/Eviction.antt =====
-- Who gets a place among the clients, and who loses one.
use tailcat_quic.Base.{
  leb, Bool-cases, Option-cases, length, lookup-insert, lookup-erase, ℕ, ◌+◌, ◌<◌, max, ◌≡◌, ◌⊎◌,
  inl, inr, true, none, some, List, arith,
}
use tailcat_quic.Keys.{KeyCodec}
use tailcat_quic.H3.{h3_max_clients}
use tailcat_quic.Lease.{SessionStates, h3_client_grace, is_kept, lease_state, changed_at}
use tailcat_quic.Backend.{Node, Backend}
use tailcat_quic.Backend.Retire.{SessionEvent, lookup_key}
use tailcat_quic.Backend.Retire.Oldest.{late, without, retire-cases}
use tailcat_quic.Backend.Admission.{
  is_ignored, client_node, admit, admit_after, meow_from_new, on_meow,
}

-- The guard keeps an established session, and any lease younger than the grace period.
pub is_kept_of :
    (states : SessionStates) (v now : ℕ)
    → (lease_state v ≡ states.established) ⊎ (now < changed_at v + h3_client_grace)
    → is_kept states v now ≡ true
unfolding is_kept
is_kept_of states v now h = ground arith

module _ {N D : Type 0} (node : KeyCodec N) (disco : KeyCodec D) (states : SessionStates) where
  lookup-admit_old :
      (src k : N) (d : D) (now : ℕ) (b : Backend N D) (n : Node N D)
      → lookup_key node src b.clients ≡ none
      → lookup_key node k b.clients ≡ some n
      → lookup_key node k (admit node disco states src d now b).1.clients ≡ some n
  unfolding admit
  lookup-admit_old src k d now b n fresh h = ground (
    arith,
    node.eq.beq_iff src k,
    lookup-insert ⦃e = node.eq⦄ src k
        (client_node node disco states (max (b.next_client_id + 1) 2) src d b.derp_region)
        b.clients,
  )

  pub lookup-admit_self :
      (src : N) (d : D) (now : ℕ) (b : Backend N D)
      → lookup_key node src (admit node disco states src d now b).1.clients
        ≡ some (client_node node disco states (max (b.next_client_id + 1) 2) src d b.derp_region)
  unfolding admit
  lookup-admit_self src d now b = ground (
    arith,
    node.eq.beq_iff src src,
    lookup-insert ⦃e = node.eq⦄ src src
        (client_node node disco states (max (b.next_client_id + 1) 2) src d b.derp_region)
        b.clients,
  )

  module _ (t : ℕ) (es : List (SessionEvent N)) (u : ℕ) (src : N) (d : D) (b : Backend N D) where
    new_keeps :
        (k : N) (n : Node N D) (v : ℕ)
        → lookup_key node src b.clients ≡ none
        → lookup_key node k b.clients ≡ some n
        → lookup_key node k (late node states es b).client_leases ≡ some v
        → is_kept states v t ≡ true
        → lookup_key node k (meow_from_new node disco states t es u src d b).1.clients ≡ some n
    unfolding meow_from_new admit_after
    new_keeps k n v fresh old lease kept =
        elim (Bool-cases (leb h3_max_clients (length b.clients))) [
          | inr room ↦ rw room (lookup-admit_old src k d u b n fresh old)
          | inl full ↦ elim (retire-cases node states t es b) [
            | inl e ↦ rw (full, e) old
            | inr (c, o, l, found, at, free, e) ↦
                rw (full, e)
                  (lookup-admit_old src k d u (without node states c (late node states es b)) n
                    (ground (arith, lookup-erase ⦃e = node.eq⦄ c src b.clients))
                    (ground (arith, node.eq.beq_iff c k, lookup-erase ⦃e = node.eq⦄ c k b.clients)))
          ]
        ]

    -- No announcement takes the place of a client whose session is established when the claim reads
    -- its lease, or whose lease changed less than the grace period before: it stays, with its node.
    pub on_meow_keeps_established :
        (k : N) (n : Node N D) (v : ℕ)
        → lookup_key node k b.clients ≡ some n
        → lookup_key node k (late node states es b).client_leases ≡ some v
        → (lease_state v ≡ states.established) ⊎ (t < changed_at v + h3_client_grace)
        → lookup_key node k (on_meow node disco states t es u src d b).1.clients ≡ some n
    unfolding on_meow
    on_meow_keeps_established k n v old lease h =
        elim (Bool-cases (is_ignored node disco states b.allowed_clients src)) [
          | inl e ↦ rw e old
          | inr e ↦ elim (Option-cases (lookup_key node src b.clients)) [
            | inl f ↦ rw (e, f) (new_keeps k n v f old lease (is_kept_of states v t h))
            | inr (m, f) ↦ rw (e, f) old
          ]
        ]
