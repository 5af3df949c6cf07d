-- ===== src/Backend/Retire.antt =====
-- h3_clients.go: session callbacks and the retirement of the oldest disconnected client.
pub mod Oldest
use tailcat_quic.Base.{
  ltb, leb, ◌==◌, if◌then◌else◌, ltb→lt, lt→ltb, leb→le, ==_iff, Bool-cases, Option-cases, Eq, beq,
  beq_refl, eq_of_beq, not_rejected, was_required, or-eq_false, not-eq_false, some-eq, length,
  get_elem?, get_or, take, drop, replicate, length-append, take-append-drop, length-take,
  length-drop, take-length_append, drop-length_append, take-of_length, drop-of_length,
  length-replicate, All, any, take-two_fields, take-drop-two_fields, drop-drop-two_fields,
  three_fields, drop-drop, four_fields, codes, bytes_eq, bytes_eq_sound, bytes_eq_self,
  bytes_eq_iff, slice, has_prefix, IsByte, lookup, insert, erase, lookup-insert, lookup-erase,
  length-erase-le, length-erase-present, length-insert-absent, ℕ, zero, suc, ◌+◌, ◌-◌, ◌*◌, ◌/◌,
  ◌%◌, ◌^◌, ◌≤◌, ◌<◌, max, min, compare, Ordering, ◌≡◌, refl, sym, ap, ap₂, ◌∙◌, subst, ◌≢◌, ◌↔◌,
  ◌⊎◌, inl, inr, Bool, true, false, not, ◌&&◌, ◌||◌, Option, none, some, List, [], ◌∷◌, ◌++◌, map,
  append_assoc, append-nil, arith, ℕ_discrete,
}
use tailcat_quic.Keys.{KeyCodec}
use tailcat_quic.Lease.{SessionStates, reclaimable, update, claim_retirement}
use tailcat_quic.Backend.{Node, Backend}

-- A session callback: the peer, the state, the time.
pub record SessionEvent (N : Type 0) : Type 0 where
  pub peer : N
  pub state : ℕ
  pub now : ℕ

abbrev pub lookup_key {κ} : {N : Type 0} {V : Type κ} → KeyCodec N → N → List (N × V) → Option V
lookup_key node k m = lookup ⦃e = node.eq⦄ k m

module _ {N : Type 0} (node : KeyCodec N) (states : SessionStates) where
  -- onH3SessionState
  unfoldable pub on_h3_session_state : SessionEvent N → List (N × ℕ) → List (N × ℕ)
  on_h3_session_state e leases = elim (lookup_key node e.peer leases) [
    | none ↦ leases
    | some v ↦ insert ⦃e = node.eq⦄ e.peer (update states v e.state e.now).0 leases
  ]

  unfoldable pub session_events : List (SessionEvent N) → List (N × ℕ) → List (N × ℕ)
  session_events [] leases = leases
  session_events (e ∷ es) leases = session_events es (on_h3_session_state e leases)

  -- One round of the scan. `none` is the zero candidate: no admitted key is zero.
  unfoldable pub consider : ℕ → N → Option ℕ → Option (N × ℕ) → Option (N × ℕ)
  consider now peer none best = best
  consider now peer (some v) none =
      let (changed, free) = reclaimable states v now in if free then some (peer, changed) else none
  consider now peer (some v) (some (candidate, oldest)) =
      let (changed, free) = reclaimable states v now in
      if free && ltb changed oldest then some (peer, changed) else some (candidate, oldest)

module _ {N D : Type 0} (node : KeyCodec N) (states : SessionStates) where
  -- The scan of retireH3ClientLocked over the clients.
  unfoldable pub scan : ℕ → List (N × ℕ) → List (N × Node N D) → Option (N × ℕ) → Option (N × ℕ)
  scan now leases [] best = best
  scan now leases ((peer, n) ∷ rest) best =
      scan now leases rest (consider node states now peer (lookup_key node peer leases) best)

  unfoldable pub claim : ℕ → N → Backend N D → Option ℕ → Option N × Backend N D
  claim now candidate b none = (none, b)
  claim now candidate b (some v) =
      let (v', won) = claim_retirement states v now in
      if won
      then (
        some candidate,
        record b {
          clients = erase ⦃e = node.eq⦄ candidate b.clients;
          client_leases = erase ⦃e = node.eq⦄ candidate b.client_leases;
        },
      )
      else (none, b)

  -- The end of retireH3ClientLocked, from the outcome of the scan.
  unfoldable pub claim_found : ℕ → Backend N D → Option (N × ℕ) → Option N × Backend N D
  claim_found now b none = (none, b)
  claim_found now b (some (candidate, oldest)) =
      claim now candidate b (lookup_key node candidate b.client_leases)

  -- retireH3ClientLocked. The events are the session callbacks between the scan and the claim.
  unfoldable pub retire_h3_client_locked :
      ℕ → List (SessionEvent N) → Backend N D → Option N × Backend N D
  retire_h3_client_locked now between b =
      claim_found now
        (record b { client_leases = session_events node states between b.client_leases })
        (scan now b.client_leases b.clients none)
