-- ===== src/DerpMap/Region/Best.antt =====
-- Which region PickBestRegion returns.
use tailcat_quic.Base.{
  ltb, if◌then◌else◌, ltb→lt, some-eq, All, ℕ, ◌*◌, ◌≤◌, ◌≡◌, refl, ap, ◌∙◌, subst, ◌⊎◌, inl, inr,
  Bool, true, false, ◌&&◌, some, List, [], ◌∷◌, arith,
}
use tailcat_quic.Lease.{second}
use tailcat_quic.DerpMap.Region.{
  Regions, region_of, is_known, faster, best_region, pick_best_region,
}

abbrev pub In : ℕ × ℕ → List (ℕ × ℕ) → Type 0
In x [] = ⊥
In x (y ∷ ys) = (x ≡ y) ⊎ In x ys

-- A latency of a region that the map has is better.
abbrev beats : Regions → ℕ → ℕ × ℕ → Bool
beats dm best (rid, d) = is_known (region_of rid dm) && ltb d best

-- A round keeps the best so far, or takes the entry, whose region the map has.
record Improves (dm : Regions) (entry best best' : ℕ × ℕ) : Type 0 where
  origin :
      (best' ≡ best) ⊎ ((best' ≡ (entry.1, entry.0)) × (is_known (region_of entry.0 dm) ≡ true))
  no_worse : best'.0 ≤ best.0
  unbeaten : beats dm best'.0 entry ≡ false

faster-Improves :
    (dm : Regions) (entry best : ℕ × ℕ) → Improves dm entry best (faster dm entry best)
unfolding faster
faster-Improves dm (rid, d) (best, id) =
    by_tests (is_known (region_of rid dm)) refl (ltb d best) refl
  where
    by_tests :
        (known : Bool)
        → is_known (region_of rid dm) ≡ known
        → (less : Bool) → ltb d best ≡ less
        → Improves dm (rid, d) (best, id) (if known && less then (d, rid) else (best, id))
    by_tests true k true l = record {
      origin = inr (refl, k);
      no_worse = omega (arith, ltb→lt d best l);
      unbeaten = ground (arith, k);
    }
    by_tests true k false l = record {
      origin = inl refl;
      no_worse = omega arith;
      unbeaten = ground (arith, k, l);
    }
    by_tests false k less l = record {
      origin = inl refl;
      no_worse = omega arith;
      unbeaten = ground (arith, k);
    }

record Best (dm : Regions) (best : ℕ × ℕ) (latencies : List (ℕ × ℕ)) (result : ℕ × ℕ) : Type 0 where
  origin :
      (result ≡ best)
      ⊎ (In (result.1, result.0) latencies × (is_known (region_of result.1 dm) ≡ true))
  no_worse : result.0 ≤ best.0
  unbeaten : All (λ entry. beats dm result.0 entry ≡ false) latencies

beats_mono :
    (dm : Regions) (a b : ℕ) (entry : ℕ × ℕ)
    → a ≤ b
    → beats dm b entry ≡ false
    → beats dm a entry ≡ false
beats_mono dm a b (rid, d) l h = ground (arith, h)

best_region-Best :
    (dm : Regions) (best : ℕ × ℕ) (latencies : List (ℕ × ℕ))
    → Best dm best latencies (best_region dm best latencies)
unfolding best_region
best_region-Best dm best [] = record { origin = inl refl; no_worse = omega arith; unbeaten = tt }
best_region-Best dm best (entry ∷ latencies) =
    let f = faster-Improves dm entry best in
    let g = best_region-Best dm (faster dm entry best) latencies in
    record {
      origin = from (best_region dm (faster dm entry best) latencies) g.origin f.origin;
      no_worse = omega (arith, f.no_worse, g.no_worse);
      unbeaten = (
        beats_mono dm (best_region dm (faster dm entry best) latencies).0 (faster dm entry best).0
            entry g.no_worse f.unbeaten,
        g.unbeaten,
      );
    }
  where
    from :
        (result : ℕ × ℕ)
        → (result ≡ faster dm entry best)
          ⊎ (In (result.1, result.0) latencies × (is_known (region_of result.1 dm) ≡ true))
        → (faster dm entry best ≡ best)
          ⊎ ((faster dm entry best ≡ (entry.1, entry.0)) × (is_known (region_of entry.0 dm) ≡ true))
        → (result ≡ best)
          ⊎ (In (result.1, result.0) (entry ∷ latencies)
              × (is_known (region_of result.1 dm) ≡ true))
    from result (inr (i, k)) h = inr (inr i, k)
    from result (inl e) (inl h) = inl (e ∙ h)
    from result (inl e) (inr (h, k)) = inr (
      inl (ap (λ (x : ℕ × ℕ). (x.1, x.0)) (e ∙ h)),
      ap (λ (x : ℕ × ℕ). is_known (region_of x.1 dm)) (e ∙ h) ∙ k,
    )

-- The region of the least latency under an hour among those that the map has, or 0 if there is none.
pub record IsFastest (dm : Regions) (latencies : List (ℕ × ℕ)) (id : ℕ) : Type 0 where
  pub latency : ℕ
  pub origin :
      ((id ≡ 0) × (latency ≡ 3600 * second))
      ⊎ (In (id, latency) latencies × (is_known (region_of id dm) ≡ true))
  pub below : latency ≤ 3600 * second
  pub unbeaten : All (λ entry. beats dm latency entry ≡ false) latencies

pub pick_best_region-IsFastest :
    (dm : Regions) (latencies : List (ℕ × ℕ)) (id : ℕ)
    → pick_best_region dm (some latencies) ≡ some id
    → IsFastest dm latencies id
unfolding pick_best_region
pick_best_region-IsFastest dm latencies id e = subst (IsFastest dm latencies) (some-eq e) (
    of_best (best_region dm (3600 * second, 0) latencies)
      (best_region-Best dm (3600 * second, 0) latencies))
  where
    of_best :
        (result : ℕ × ℕ)
        → Best dm (3600 * second, 0) latencies result
        → IsFastest dm latencies result.1
    of_best result b = record {
      latency = result.0;
      origin = from b.origin;
      below = b.no_worse;
      unbeaten = b.unbeaten;
    }
      where
        from :
            (result ≡ (3600 * second, 0))
              ⊎ (In (result.1, result.0) latencies × (is_known (region_of result.1 dm) ≡ true))
            → ((result.1 ≡ 0) × (result.0 ≡ 3600 * second))
              ⊎ (In (result.1, result.0) latencies × (is_known (region_of result.1 dm) ≡ true))
        from (inl h) = inl (ap (λ (x : ℕ × ℕ). x.1) h, ap (λ (x : ℕ × ℕ). x.0) h)
        from (inr h) = inr h
