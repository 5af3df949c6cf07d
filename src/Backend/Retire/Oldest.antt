-- ===== src/Backend/Retire/Oldest.antt =====
-- What a retirement does: whom it takes, and when it takes nobody.
use tailcat_quic.Base.{
  ltb, Bool-cases, Option-cases, lookup, erase, lookup-insert, ℕ, ◌≤◌, ◌≡◌, refl, ap, ◌∙◌, ◌↔◌, ◌⊎◌,
  inl, inr, false, ◌&&◌, Option, none, some, List, [], ◌∷◌, arith,
}
use tailcat_quic.Keys.{KeyCodec}
use tailcat_quic.Lease.{SessionStates, is_kept, changed_at, reclaimable, update, claim_retirement}
use tailcat_quic.Backend.{Node, Backend}
use tailcat_quic.Backend.Retire.{
  claim_found, SessionEvent, lookup_key, on_h3_session_state, session_events, consider, scan, claim,
  retire_h3_client_locked,
}

module _ {N : Type 0} (node : KeyCodec N) (states : SessionStates) where
  -- Session callbacks neither add nor drop a lease.
  on_h3_session_state-none :
      (e : SessionEvent N) (k : N) (leases : List (N × ℕ))
      → (lookup_key node k (on_h3_session_state node states e leases) ≡ none)
        ↔ (lookup_key node k leases ≡ none)
  unfolding on_h3_session_state
  on_h3_session_state-none e k leases = elim (Option-cases (lookup_key node e.peer leases)) [
    | inl q ↦ rw (q, on_h3_session_state) (λ h. h, λ h. h)
    | inr (v, q) ↦ ground (
      arith,
      q,
      node.eq.beq_iff e.peer k,
      lookup-insert ⦃e = node.eq⦄ e.peer k (update states v e.state e.now).0 leases,
    )
  ]

  pub session_events-none :
      (es : List (SessionEvent N)) (k : N) (leases : List (N × ℕ))
      → (lookup_key node k (session_events node states es leases) ≡ none)
        ↔ (lookup_key node k leases ≡ none)
  unfolding session_events
  session_events-none [] k leases = (λ h. h, λ h. h)
  session_events-none (e ∷ es) k leases =
      let (to, from) = session_events-none es k (on_h3_session_state node states e leases) in
      let (to', from') = on_h3_session_state-none e k leases in
      (λ h. to' (to h), λ h. from (from' h))

module _ {N D : Type 0} (node : KeyCodec N) (states : SessionStates) where
  abbrev pub late : List (SessionEvent N) → Backend N D → Backend N D
  late between b = record b { client_leases = session_events node states between b.client_leases }

  abbrev pub without : N → Backend N D → Backend N D
  without k b = record b {
    clients = erase ⦃e = node.eq⦄ k b.clients;
    client_leases = erase ⦃e = node.eq⦄ k b.client_leases;
  }

  claim-cases :
      (now : ℕ) (k : N) (b : Backend N D) (o : Option ℕ)
      → (claim node states now k b o ≡ (none, b))
        ⊎ ((v : ℕ) × (o ≡ some v)
            × (is_kept states v now ≡ false)
            × (claim node states now k b o ≡ (some k, without k b)))
  unfolding claim claim_retirement
  claim-cases now k b none = inl refl
  claim-cases now k b (some v) = elim (Bool-cases (is_kept states v now)) [
    | inl e ↦ inl (ground arith)
    | inr e ↦ inr (v, refl, e, ground arith)
  ]

  claim_found-cases :
      (now : ℕ) (b : Backend N D) (found : Option (N × ℕ))
      → (claim_found node states now b found ≡ (none, b))
        ⊎ ((k : N) × (oldest : ℕ) × (v : ℕ) × (found ≡ some (k, oldest))
            × (lookup_key node k b.client_leases ≡ some v)
            × (is_kept states v now ≡ false)
            × (claim_found node states now b found ≡ (some k, without k b)))
  unfolding claim_found
  claim_found-cases now b none = inl refl
  claim_found-cases now b (some (k, oldest)) =
      elim (claim-cases now k b (lookup_key node k b.client_leases)) [
        | inl c ↦ inl c
        | inr (v, o, f, c) ↦ inr (k, oldest, v, refl, o, f, c)
      ]

  -- A retirement takes nobody, or the candidate of the scan, whose lease is still free at the claim.
  pub retire-cases :
      (now : ℕ) (between : List (SessionEvent N)) (b : Backend N D)
      → (retire_h3_client_locked node states now between b ≡ (none, late between b))
        ⊎ ((k : N) × (oldest : ℕ) × (v : ℕ) × (scan node states now b.client_leases b.clients none
              ≡ some (k, oldest))
            × (lookup_key node k (late between b).client_leases ≡ some v)
            × (is_kept states v now ≡ false)
            × (retire_h3_client_locked node states now between b
                ≡ (some k, without k (late between b))))
  unfolding retire_h3_client_locked
  retire-cases now between b =
      claim_found-cases now (late between b) (scan node states now b.client_leases b.clients none)

  -- A candidate whose lease is free at the claim is taken.
  pub retire-of_scan :
      (now : ℕ) (between : List (SessionEvent N)) (b : Backend N D) (k : N) (o v : ℕ)
      → scan node states now b.client_leases b.clients none ≡ some (k, o)
      → lookup_key node k (late between b).client_leases ≡ some v
      → is_kept states v now ≡ false
      → retire_h3_client_locked node states now between b ≡ (some k, without k (late between b))
  unfolding retire_h3_client_locked claim_found claim claim_retirement
  retire-of_scan now between b k o v found at free = rw (found, at, free) refl

-- The scan finds a client at most as recent as any that may be taken.
module _ {N : Type 0} (node : KeyCodec N) (states : SessionStates) (now : ℕ) where
  -- The best candidate so far is as old as `o`, or older.
  abbrev pub AtMost : ℕ → Option (N × ℕ) → Type 0
  AtMost o best = (k : N) × (o' : ℕ) × (best ≡ some (k, o')) × (o' ≤ o)

  consider-AtMost :
      (o : ℕ) (peer : N) (l : Option ℕ) (best : Option (N × ℕ))
      → AtMost o best
      → AtMost o (consider node states now peer l best)
  unfolding consider
  consider-AtMost o peer none best (k, o', e, h) = (k, o', e, h)
  consider-AtMost o peer (some v) none (k, o', e, h) = absurd (ground arith)
  consider-AtMost o peer (some v) (some (c, q)) (k, o', e, h) =
      elim (Bool-cases ((reclaimable states v now).1 && ltb (reclaimable states v now).0 q)) [
        | inl t ↦ (peer, (reclaimable states v now).0, rw t refl, ground arith)
        | inr f ↦ (c, q, rw f refl, ground arith)
      ]

  consider-free :
      (peer : N) (v : ℕ) (best : Option (N × ℕ))
      → is_kept states v now ≡ false
      → AtMost (changed_at v) (consider node states now peer (some v) best)
  unfolding consider reclaimable
  consider-free peer v none f = (peer, changed_at v, rw f refl, omega arith)
  consider-free peer v (some (c, q)) f = elim (Bool-cases (ltb (changed_at v) q)) [
    | inl t ↦ (peer, changed_at v, rw (f, t) refl, omega arith)
    | inr t ↦ (c, q, rw (f, t) refl, ground arith)
  ]

  -- The candidate so far has a free lease, last changed at the time recorded with it.
  abbrev pub IsFree : List (N × ℕ) → Option (N × ℕ) → Type 0
  IsFree leases none = Unit {0}
  IsFree leases (some (k, o)) =
      (v : ℕ) × (lookup_key node k leases ≡ some v)
      × (is_kept states v now ≡ false)
      × (changed_at v ≡ o)

  consider-IsFree :
      (leases : List (N × ℕ)) (peer : N) (l : Option ℕ) (best : Option (N × ℕ))
      → lookup_key node peer leases ≡ l
      → IsFree leases best
      → IsFree leases (consider node states now peer l best)
  unfolding consider reclaimable
  consider-IsFree leases peer none best e h = h
  consider-IsFree leases peer (some v) none e h = elim (Bool-cases (is_kept states v now)) [
    | inl t ↦ rw t tt
    | inr f ↦ rw f (v, e, f, refl)
  ]
  consider-IsFree leases peer (some v) (some (c, q)) e h =
      elim (Bool-cases (is_kept states v now)) [
        | inl t ↦ rw t h
        | inr f ↦ elim (Bool-cases (ltb (changed_at v) q)) [
          | inl t ↦ rw (f, t) (v, e, f, refl)
          | inr t ↦ rw (f, t) h
        ]
      ]

module _ {N D : Type 0} (node : KeyCodec N) (states : SessionStates) (now : ℕ)
    (leases : List (N × ℕ)) where
  pub scan-IsFree :
      (m : List (N × Node N D)) (best : Option (N × ℕ))
      → IsFree node states now leases best
      → IsFree node states now leases (scan node states now leases m best)
  unfolding scan
  scan-IsFree [] best h = h
  scan-IsFree ((peer, n) ∷ m) best h =
      scan-IsFree m (consider node states now peer (lookup_key node peer leases) best)
        (consider-IsFree node states now leases peer (lookup_key node peer leases) best refl h)

  scan-AtMost :
      (m : List (N × Node N D)) (o : ℕ) (best : Option (N × ℕ))
      → AtMost node states now o best
      → AtMost node states now o (scan node states now leases m best)
  unfolding scan
  scan-AtMost [] o best h = h
  scan-AtMost ((peer, n) ∷ m) o best h =
      scan-AtMost m o (consider node states now peer (lookup_key node peer leases) best)
        (consider-AtMost node states now o peer (lookup_key node peer leases) best h)

  pub scan-free :
      (m : List (N × Node N D)) (best : Option (N × ℕ)) (k : N) (n : Node N D) (v : ℕ)
      → lookup_key node k m ≡ some n
      → lookup_key node k leases ≡ some v
      → is_kept states v now ≡ false
      → AtMost node states now (changed_at v) (scan node states now leases m best)
  unfolding scan lookup
  scan-free [] best k n v e l f = absurd (ground arith)
  scan-free ((peer, w) ∷ m) best k n v e l f = elim (Bool-cases (node.eq.beq peer k)) [
    | inl same ↦
        let e' = (node.eq.beq_iff peer k).0 same in
        scan-AtMost m (changed_at v)
          (consider node states now peer (lookup_key node peer leases) best)
          (rw (ap (λ j. lookup_key node j leases) e' ∙ l)
            (consider-free node states now peer v best f))
    | inr other ↦
        scan-free m (consider node states now peer (lookup_key node peer leases) best) k n v
          (ground arith) l f
  ]
