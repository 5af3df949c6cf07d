-- ===== src/Service/Ports.antt =====
-- The choice of an unused port: it finds one whenever there is one.
use tailcat_quic.Base.{
  ◌==◌, ==_iff, Bool-cases, Option-cases, lookup, ℕ, zero, suc, ◌+◌, ◌-◌, ◌%◌, ◌≤◌, ◌<◌, ◌≡◌, refl,
  sym, ap, ◌∙◌, ◌≢◌, inl, inr, Option, none, some, List, arith, nat_eq,
}
use tailcat_quic.Service.{Listener}
use tailcat_quic.Service.Listeners.{
  dynamic_lo, dynamic_hi, dynamic_count, nth_port, pick_round, pick_unused_port,
}

-- The rounds from `i` on: the port found is that of a round and unused, or all of them are used.
abbrev Found : ℕ → ℕ → ℕ → List (ℕ × Listener) → Option ℕ → Type 0
Found left i start m (some p) = (lookup p m ≡ none) × ((j : ℕ) × (p ≡ nth_port start j))
Found left i start m none = (j : ℕ) → i ≤ j → j < i + left → lookup (nth_port start j) m ≢ none

pick_round-Found :
    (left i start : ℕ) (m : List (ℕ × Listener)) → Found left i start m (pick_round left i start m)
unfolding pick_round
pick_round-Found zero i start m = λ j a b. absurd (omega arith)
pick_round-Found (suc left) i start m = elim (Option-cases (lookup (nth_port start i) m)) [
  | inl e ↦ rw (e, Found) (e, (i, refl))
  | inr (ln, e) ↦
      rw (e, Found)
        (extend (pick_round left (i + 1) start m) e (pick_round-Found left (i + 1) start m))
]
  where
    extend :
        {ln : Listener} (o : Option ℕ)
        → lookup (nth_port start i) m ≡ some ln
        → Found left (i + 1) start m o
        → Found (suc left) i start m o
    extend (some p) e f = f
    extend none e f = λ j a b. elim (Bool-cases (j == i)) [
      | inl same ↦ λ none_there. absurd (
          cc (
            sym e ∙ ap (λ k. lookup (nth_port start k) m) (sym ((==_iff j i).0 same)) ∙ none_there))
      | inr other ↦ f j (ground arith) (omega arith)
    ]

nth_port-range : (start j : ℕ) → (dynamic_lo ≤ nth_port start j) × (nth_port start j ≤ dynamic_hi)
nth_port-range start j = omega arith

-- The round that tries a given port of the range.
round_of :
    (start p : ℕ)
    → start < dynamic_count
    → dynamic_lo ≤ p
    → p ≤ dynamic_hi
    → (j : ℕ) × (j < dynamic_count) × (nth_port start j ≡ p)
round_of start p s l h =
    ((p - dynamic_lo + dynamic_count - start) % dynamic_count, omega arith, omega arith)

-- What the outcome of pickUnusedPort means.
abbrev pub Picked : List (ℕ × Listener) → Option ℕ → Type 0
Picked m (some p) = (lookup p m ≡ none) × (dynamic_lo ≤ p) × (p ≤ dynamic_hi)
Picked m none = (p : ℕ) → dynamic_lo ≤ p → p ≤ dynamic_hi → lookup p m ≢ none

-- From every starting point of the range, the port picked is an unused one of the dynamic range, and
-- the choice fails only if every port of the range is used.
pub pick_unused_port_outcome :
    (start : ℕ) (m : List (ℕ × Listener))
    → start < dynamic_count
    → Picked m (pick_unused_port start m)
unfolding pick_unused_port
pick_unused_port_outcome start m s =
    conclude (pick_round dynamic_count 0 start m) (pick_round-Found dynamic_count 0 start m)
  where
    conclude : (o : Option ℕ) → Found dynamic_count 0 start m o → Picked m o
    conclude (some p) (e, (j, f)) = (
      e,
      omega (arith, f, (nth_port-range start j).0),
      omega (arith, f, (nth_port-range start j).1),
    )
    conclude none f = λ p l h e.
        let (j, small, at) = round_of start p s l h in
        f j (omega arith) (omega arith) (ap (λ k. lookup k m) at ∙ e)
