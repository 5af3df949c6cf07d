-- ===== src/Lease/Race.antt =====
-- The lease word under concurrent session callbacks and retirement claims: every thread makes one
-- atomic access at a time, in any order.
pub mod Invariant
pub mod Winner
use tailcat_quic.Base.{
  ltb, leb, ◌==◌, if◌then◌else◌, ltb→lt, lt→ltb, leb→le, ==_iff, Bool-cases, Option-cases, Eq, beq,
  beq_refl, eq_of_beq, not_rejected, was_required, or-eq_false, not-eq_false, some-eq, length,
  get_elem?, get_or, take, drop, replicate, length-append, take-append-drop, length-take,
  length-drop, take-length_append, drop-length_append, take-of_length, drop-of_length,
  length-replicate, All, any, take-two_fields, take-drop-two_fields, drop-drop-two_fields,
  three_fields, drop-drop, four_fields, codes, bytes_eq, bytes_eq_sound, bytes_eq_self,
  bytes_eq_iff, slice, has_prefix, IsByte, lookup, insert, erase, lookup-insert, lookup-erase,
  length-erase-le, length-erase-present, length-insert-absent, ℕ, zero, suc, ◌+◌, ◌-◌, ◌*◌, ◌/◌,
  ◌%◌, ◌^◌, ◌≤◌, ◌<◌, max, min, compare, Ordering, ◌≡◌, refl, sym, ap, ap₂, ◌∙◌, subst, ◌≢◌, ◌↔◌,
  ◌⊎◌, inl, inr, Bool, true, false, not, ◌&&◌, ◌||◌, Option, none, some, List, [], ◌∷◌, ◌++◌, map,
  append_assoc, append-nil, arith, ℕ_discrete,
}
use tailcat_quic.Lease.{SessionStates, h3_lease_retired, is_kept}

-- Where a thread stands in `update` or `claimRetirement`.
pub data Pc : Type 0 where
  load_update : ℕ → Pc
  swap_update : ℕ → ℕ → Pc
  updated : Bool → Pc
  load_claim : ℕ → Pc
  swap_claim : ℕ → ℕ → Pc
  claimed : Bool → Pc

pub record Race : Type 0 where
  pub cell : ℕ
  pub thread : ℕ → Pc

unfoldable pub set_thread : (ℕ → Pc) → ℕ → Pc → ℕ → Pc
set_thread f i pc j = if i == j then pc else f j

-- A thread that has not begun: a callback with a word to write, or a claim.
abbrev pub IsFresh : Pc → Type 0
IsFresh (load_update next) = next ≢ h3_lease_retired
IsFresh (load_claim now) = Unit {0}
IsFresh _ = ⊥

module _ (states : SessionStates) where
  -- One atomic access of a thread to the word: a Load, or a CompareAndSwap.
  unfoldable pub access : ℕ → Pc → ℕ × Pc
  access cell (load_update next) =
      if cell == h3_lease_retired then (cell, updated false) else (cell, swap_update cell next)
  access cell (swap_update previous next) =
      if cell == previous then (next, updated true) else (cell, load_update next)
  access cell (load_claim now) =
      if is_kept states cell now then (cell, claimed false) else (cell, swap_claim now cell)
  access cell (swap_claim now v) =
      if cell == v then (h3_lease_retired, claimed true) else (cell, claimed false)
  access cell (updated b) = (cell, updated b)
  access cell (claimed b) = (cell, claimed b)

  -- Thread `i` makes its next access.
  unfoldable pub step : ℕ → Race → Race
  unfolding set_thread
  step i s =
      let (cell', pc) = access s.cell (s.thread i) in
      record { cell = cell'; thread = set_thread s.thread i pc }

  -- The threads run in the order of a schedule.
  unfoldable pub run : List ℕ → Race → Race
  run [] s = s
  run (i ∷ is) s = run is (step i s)
