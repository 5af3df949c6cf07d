-- ===== src/Cli/Ranges.antt =====
-- portRanges of cmd/tailcat/tailcat.go, and which ports its ranges hold.
use tailcat_quic.Base.{
  ◌==◌, if◌then◌else◌, Bool-cases, any, ℕ, ◌+◌, ◌%◌, ◌≤◌, ◌<◌, ◌≡◌, refl, ◌∙◌, inl, inr, ◌||◌,
  Option, none, some, List, [], ◌∷◌, arith,
}
use tailcat_quic.Service.{PortRange}
use tailcat_quic.Service.Handlers.{in_range, is_served}
use tailcat_quic.Cli.{has_port}

-- One round of the loop: the last range grows, or a new one is appended. Last + 1 is a uint16.
unfoldable pub extend_ranges : List PortRange → ℕ → List PortRange
extend_ranges [] p = record { first = p; last = p } ∷ []
extend_ranges (r ∷ []) p =
    if (r.last + 1) % 65536 == p
    then record r { last = p } ∷ []
    else r ∷ (record { first = p; last = p } ∷ [])
extend_ranges (r ∷ (q ∷ rs)) p = r ∷ extend_ranges (q ∷ rs) p

unfoldable pub ranges_from : List PortRange → List ℕ → List PortRange
unfolding extend_ranges
ranges_from acc [] = acc
ranges_from acc (p ∷ ps) = ranges_from (extend_ranges acc p) ps

-- portRanges; the nil result of an empty list is `none`.
unfoldable pub port_ranges : List ℕ → Option (List PortRange)
unfolding ranges_from
port_ranges [] = none
port_ranges (p ∷ ps) = some (ranges_from [] (p ∷ ps))

-- No 65535 is followed by a 0, where the uint16 sum would wrap; and all are ports.
abbrev pub DoesNotWrap : ℕ → List ℕ → Type 0
DoesNotWrap q [] = q < 65536
DoesNotWrap q (p ∷ ps) = (q < 65536) × (¬ ((q ≡ 65535) × (p ≡ 0))) × DoesNotWrap p ps

DoesNotWrap-lt : (p : ℕ) (ps : List ℕ) → DoesNotWrap p ps → p < 65536
DoesNotWrap-lt p [] w = w
DoesNotWrap-lt p (r ∷ ps) w = w.0

-- The last of some ranges ends at a port, and starts no later.
abbrev EndsAt : List PortRange → ℕ → Type 0
EndsAt [] q = ⊥
EndsAt (r ∷ []) q = (r.last ≡ q) × (r.first ≤ q)
EndsAt (r ∷ (s ∷ rs)) q = EndsAt (s ∷ rs) q

module _ (p q : ℕ) (high : q < 65536) (no_wrap : ¬ ((q ≡ 65535) × (p ≡ 0))) where
  extend_ranges-EndsAt : (rs : List PortRange) → EndsAt rs q → EndsAt (extend_ranges rs p) p
  unfolding extend_ranges
  extend_ranges-EndsAt [] h = absurd h
  extend_ranges-EndsAt (r ∷ []) h = elim (Bool-cases ((r.last + 1) % 65536 == p)) [
    | inl e ↦ rw e (ground (arith, no_wrap))
    | inr e ↦ rw e (omega arith)
  ]
  extend_ranges-EndsAt (r ∷ (s ∷ [])) h = elim (Bool-cases ((s.last + 1) % 65536 == p)) [
    | inl e ↦ rw e (ground (arith, no_wrap))
    | inr e ↦ rw e (omega arith)
  ]
  extend_ranges-EndsAt (r ∷ (s ∷ (t ∷ rs))) h = extend_ranges-EndsAt (s ∷ (t ∷ rs)) h

  any-extend_ranges :
      (x : ℕ) (rs : List PortRange)
      → p < 65536
      → EndsAt rs q
      → any (in_range x) (extend_ranges rs p) ≡ (any (in_range x) rs || p == x)
  unfolding extend_ranges
  any-extend_ranges x [] l h = absurd h
  any-extend_ranges x (r ∷ []) l h = elim (Bool-cases ((r.last + 1) % 65536 == p)) [
    | inl e ↦ rw e (ground (arith, no_wrap))
    | inr e ↦ rw e (ground arith)
  ]
  any-extend_ranges x (r ∷ (s ∷ rs)) l h = ground (arith, any-extend_ranges x (s ∷ rs) l h)

any-ranges_from :
    (x q : ℕ) (rs : List PortRange) (ps : List ℕ)
    → EndsAt rs q
    → DoesNotWrap q ps
    → any (in_range x) (ranges_from rs ps) ≡ (any (in_range x) rs || has_port x ps)
unfolding ranges_from
any-ranges_from x q rs [] h w = ground arith
any-ranges_from x q rs (p ∷ ps) h w =
    let low : p < 65536 = DoesNotWrap-lt p ps w.2 in
    any-ranges_from x p (extend_ranges rs p) ps (extend_ranges-EndsAt p q w.0 w.1 rs h) w.2
    ∙ ground (arith, any-extend_ranges p q w.0 w.1 x rs low h)

-- The ranges hold exactly the listed ports.
pub in_range-port_ranges :
    (x p : ℕ) (ps : List ℕ)
    → DoesNotWrap p ps
    → is_served x (port_ranges (p ∷ ps)) ≡ has_port x (p ∷ ps)
unfolding port_ranges ranges_from extend_ranges is_served
in_range-port_ranges x p ps w =
    any-ranges_from x p (record { first = p; last = p } ∷ []) ps (refl, omega arith) w
    ∙ ground arith
