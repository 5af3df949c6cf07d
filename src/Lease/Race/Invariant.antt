-- ===== src/Lease/Race/Invariant.antt =====
-- What holds of the threads and the word between two accesses, kept by every access.
use tailcat_quic.Base.{
  ◌==◌, ==_iff, Bool-cases, ℕ, ◌≡◌, refl, ◌∙◌, subst, ◌≢◌, ◌⊎◌, inl, inr, true, false, arith,
}
use tailcat_quic.Lease.{SessionStates, h3_lease_retired, is_kept}
use tailcat_quic.Lease.Race.{
  Pc, load_update, swap_update, updated, load_claim, swap_claim, claimed, Race, access, step,
}

module _ (states : SessionStates) where
  -- What holds of a thread between its accesses.
  abbrev pub Sound : ℕ → Pc → Type 0
  Sound cell (load_update next) = next ≢ h3_lease_retired
  Sound cell (swap_update previous next) = (previous ≢ h3_lease_retired) × (next ≢ h3_lease_retired)
  Sound cell (updated b) = Unit {0}
  Sound cell (load_claim now) = Unit {0}
  Sound cell (swap_claim now v) = is_kept states v now ≡ false
  Sound cell (claimed true) = cell ≡ h3_lease_retired
  Sound cell (claimed false) = Unit {0}

  -- A single winner, and the tombstone in its place.
  pub record Inv (s : Race) : Type 0 where
    pub sound : (i : ℕ) → Sound s.cell (s.thread i)
    pub single : (i j : ℕ) → s.thread i ≡ claimed true → s.thread j ≡ claimed true → i ≡ j

  -- The tombstone stays, whatever a sound thread does.
  access-retired :
      (cell : ℕ) (pc : Pc)
      → Sound cell pc
      → cell ≡ h3_lease_retired
      → (access states cell pc).0 ≡ h3_lease_retired
  unfolding access is_kept
  access-retired cell (load_update next) s e = ground arith
  access-retired cell (swap_update previous next) s e = ground arith
  access-retired cell (updated b) s e = ground arith
  access-retired cell (load_claim now) s e = ground arith
  access-retired cell (swap_claim now v) s e = ground arith
  access-retired cell (claimed b) s e = ground arith

  -- A winner has won before, or wins now and finds the word live.
  pub access-wins :
      (cell : ℕ) (pc : Pc)
      → Sound cell pc
      → (access states cell pc).1 ≡ claimed true
      → (pc ≡ claimed true) ⊎ (cell ≢ h3_lease_retired)
  unfolding access is_kept
  access-wins cell (load_update next) s e = ground arith
  access-wins cell (swap_update previous next) s e = ground arith
  access-wins cell (updated b) s e = ground arith
  access-wins cell (load_claim now) s e = ground arith
  access-wins cell (swap_claim now v) s e = inr (λ r. ground arith)
  access-wins cell (claimed b) s e = inl e

  access-Sound :
      (cell : ℕ) (pc : Pc)
      → Sound cell pc
      → Sound (access states cell pc).0 (access states cell pc).1
  unfolding access is_kept
  access-Sound cell (load_update next) s = ground arith
  access-Sound cell (swap_update previous next) s = ground arith
  access-Sound cell (updated b) s = tt
  access-Sound cell (load_claim now) s = ground arith
  access-Sound cell (swap_claim now v) s = ground arith
  access-Sound cell (claimed b) s = s

  -- A thread that stands still is sound after the access of another.
  other-Sound :
      (cell cell' : ℕ) (pc : Pc)
      → (cell ≡ h3_lease_retired → cell' ≡ h3_lease_retired)
      → Sound cell pc
      → Sound cell' pc
  other-Sound cell cell' (load_update next) k s = s
  other-Sound cell cell' (swap_update previous next) k s = s
  other-Sound cell cell' (updated b) k s = tt
  other-Sound cell cell' (load_claim now) k s = tt
  other-Sound cell cell' (swap_claim now v) k s = s
  other-Sound cell cell' (claimed true) k s = k s
  other-Sound cell cell' (claimed false) k s = tt

  pub step-thread_self :
      (i : ℕ) (s : Race) → (step states i s).thread i ≡ (access states s.cell (s.thread i)).1
  unfolding step
  step-thread_self i s = ground arith

  pub step-thread_other :
      (i j : ℕ) (s : Race) → (i == j) ≡ false → (step states i s).thread j ≡ s.thread j
  unfolding step
  step-thread_other i j s n = rw n

  step-cell : (i : ℕ) (s : Race) → (step states i s).cell ≡ (access states s.cell (s.thread i)).0
  unfolding step
  step-cell i s = refl

  pub step-retired :
      (i : ℕ) (s : Race)
      → Inv s
      → s.cell ≡ h3_lease_retired
      → (step states i s).cell ≡ h3_lease_retired
  step-retired i s v e = step-cell i s ∙ access-retired s.cell (s.thread i) (v.sound i) e

  pub step-Sound :
      (i j : ℕ) (s : Race) → Inv s → Sound (step states i s).cell ((step states i s).thread j)
  step-Sound i j s v = elim (Bool-cases (i == j)) [
    | inl e ↦
        subst (λ k. Sound (step states i s).cell ((step states i s).thread k)) ((==_iff i j).0 e)
          (rw (step-cell i s, step-thread_self i s) (access-Sound s.cell (s.thread i) (v.sound i)))
    | inr n ↦
        rw (step-thread_other i j s n)
          (other-Sound s.cell (step states i s).cell (s.thread j) (step-retired i s v) (v.sound j))
  ]

  pub winner_retired :
      (s : Race) (j : ℕ) → Inv s → s.thread j ≡ claimed true → s.cell ≡ h3_lease_retired
  winner_retired s j v e = subst (Sound s.cell) e (v.sound j)
