-- ===== src/Lease/Race/Winner.antt =====
-- Retirement has a single winner, is final, and takes stale leases only.
use tailcat_quic.Base.{
  ◌==◌, ==_iff, Bool-cases, ℕ, ◌+◌, ◌≤◌, ◌≡◌, sym, ap, ◌∙◌, subst, ◌≢◌, ◌⊎◌, inl, inr, true, false,
  List, [], ◌∷◌, arith,
}
use tailcat_quic.Lease.{
  SessionStates, h3_lease_retired, is_kept, lease_state, changed_at, h3_client_grace,
}
use tailcat_quic.Lease.Race.{
  Pc, load_update, swap_update, updated, load_claim, swap_claim, claimed, Race, IsFresh, access,
  step, run,
}
use tailcat_quic.Lease.Race.Invariant.{
  Sound, Inv, access-wins, step-thread_self, step-thread_other, step-retired, step-Sound,
  winner_retired,
}

module _ (states : SessionStates) where
  step-winner :
      (i j : ℕ) (s : Race)
      → Inv states s
      → (step states i s).thread j ≡ claimed true
      → (s.thread j ≡ claimed true) ⊎ ((i ≡ j) × (s.cell ≢ h3_lease_retired))
  step-winner i j s v h = elim (Bool-cases (i == j)) [
    | inr n ↦ inl (sym (step-thread_other states i j s n) ∙ h)
    | inl e ↦
        let same = (==_iff i j).0 e in
        let won =
          sym (step-thread_self states i s) ∙ ap (λ k. (step states i s).thread k) same ∙ h in
        elim (access-wins states s.cell (s.thread i) (v.sound i) won) [
          | inl old ↦ inl (subst (λ k. s.thread k ≡ claimed true) same old)
          | inr live ↦ inr (same, live)
        ]
  ]

  step-single :
      (i j k : ℕ) (s : Race)
      → Inv states s
      → (step states i s).thread j ≡ claimed true
      → (step states i s).thread k ≡ claimed true
      → j ≡ k
  step-single i j k s v a b = elim (step-winner i j s v a) [
    | inl a' ↦ elim (step-winner i k s v b) [
      | inl b' ↦ v.single j k a' b'
      | inr (_, live) ↦ absurd (live (winner_retired states s j v a'))
    ]
    | inr (p, live) ↦ elim (step-winner i k s v b) [
      | inl b' ↦ absurd (live (winner_retired states s k v b'))
      | inr (q, _) ↦ sym p ∙ q
    ]
  ]

  step-Inv : (i : ℕ) (s : Race) → Inv states s → Inv states (step states i s)
  step-Inv i s v = record {
    sound = λ j. step-Sound states i j s v;
    single = λ j k. step-single i j k s v;
  }

  run-Inv : (is : List ℕ) (s : Race) → Inv states s → Inv states (run states is s)
  unfolding run
  run-Inv [] s v = v
  run-Inv (i ∷ is) s v = run-Inv is (step states i s) (step-Inv i s v)

  run-retired :
      (is : List ℕ) (s : Race)
      → Inv states s
      → s.cell ≡ h3_lease_retired
      → (run states is s).cell ≡ h3_lease_retired
  unfolding run
  run-retired [] s v e = e
  run-retired (i ∷ is) s v e =
      run-retired is (step states i s) (step-Inv i s v) (step-retired states i s v e)

  fresh-Sound : (cell : ℕ) (pc : Pc) → IsFresh pc → Sound states cell pc
  fresh-Sound cell (load_update next) f = f
  fresh-Sound cell (load_claim now) f = tt
  fresh-Sound cell (swap_update a b) f = absurd f
  fresh-Sound cell (updated a) f = absurd f
  fresh-Sound cell (swap_claim a b) f = absurd f
  fresh-Sound cell (claimed a) f = absurd f

  fresh-not_winner : (pc : Pc) → IsFresh pc → pc ≢ claimed true
  fresh-not_winner (load_update next) f e = cc
  fresh-not_winner (load_claim now) f e = cc
  fresh-not_winner (swap_update a b) f e = absurd f
  fresh-not_winner (updated a) f e = absurd f
  fresh-not_winner (swap_claim a b) f e = absurd f
  fresh-not_winner (claimed a) f e = absurd f

  pub fresh-Inv : (s : Race) → ((i : ℕ) → IsFresh (s.thread i)) → Inv states s
  fresh-Inv s f = record {
    sound = λ i. fresh-Sound s.cell (s.thread i) (f i);
    single = λ i j a. absurd (fresh-not_winner (s.thread i) (f i) a);
  }

  -- Any number of session callbacks and retirement claims race on one lease, in any order. After any
  -- schedule at most one claim has succeeded, and if one has, the lease is retired then and after
  -- every further schedule: no callback brings it back.
  pub claim_single_winner :
      (s : Race) (is : List ℕ) (i j : ℕ)
      → ((k : ℕ) → IsFresh (s.thread k))
      → (run states is s).thread i ≡ claimed true
      → ((run states is s).thread j ≡ claimed true → i ≡ j)
        × ((more : List ℕ) → (run states more (run states is s)).cell ≡ h3_lease_retired)
  claim_single_winner s is i j f a =
      let v = run-Inv is s (fresh-Inv s f) in
      (
        λ b. v.single i j a b,
        λ more.
            run-retired more (run states is s) v (winner_retired states (run states is s) i v a),
      )

  access-retires :
      (cell : ℕ) (pc : Pc)
      → Sound states cell pc
      → cell ≢ h3_lease_retired
      → (access states cell pc).0 ≡ h3_lease_retired
      → (now : ℕ) × (pc ≡ swap_claim now cell) × (is_kept states cell now ≡ false)
  unfolding access
  access-retires cell (load_update next) s n e = absurd (ground arith)
  access-retires cell (swap_update previous next) s n e = absurd (ground arith)
  access-retires cell (updated b) s n e = absurd (n e)
  access-retires cell (load_claim now) s n e = absurd (ground arith)
  access-retires cell (swap_claim now v) s n e = (now, ground arith, ground arith)
  access-retires cell (claimed b) s n e = absurd (n e)

  -- Whenever an access retires a live lease, it is the swap of a claim, and at that very moment the
  -- word in the lease is one that the guard lets go: its session is not established, and its last
  -- change is at least the grace period before the time of the claim.
  pub retired_is_stale :
      (s : Race) (is : List ℕ) (i : ℕ)
      → ((k : ℕ) → IsFresh (s.thread k))
      → (run states is s).cell ≢ h3_lease_retired
      → (step states i (run states is s)).cell ≡ h3_lease_retired
      → (now : ℕ) × ((run states is s).thread i ≡ swap_claim now (run states is s).cell)
        × (lease_state (run states is s).cell ≢ states.established)
        × (changed_at (run states is s).cell + h3_client_grace ≤ now)
  unfolding is_kept step
  retired_is_stale s is i f n e =
      let t = run states is s in
      let v = run-Inv is s (fresh-Inv s f) in
      let (now, at_swap, stale) = access-retires t.cell (t.thread i) (v.sound i) n e in
      (now, at_swap, ground arith, ground arith)
