-- ===== src/DerpMap/Region/Shuffled.antt =====
-- The keys of a DERP map, and what the shuffle of its nodes leaves.
use tailcat_quic.Base.{
  ◌==◌, if◌then◌else◌, ==_iff, some-eq, length, get_elem?, ℕ, zero, suc, ◌<◌, ◌≡◌, refl, sym, ◌∙◌,
  Bool, true, false, Option, none, some, List, [], ◌∷◌, arith,
}
use tailcat_quic.Address.{DerpNode, DerpRegion}
use tailcat_quic.DerpMap.Region.{
  Regions, region_of, is_known, region_ids, cons_region, shuffle_nodes,
}

pub get_elem?-in_range : (xs : List ℕ) (i : ℕ) → i < length xs → (x : ℕ) × (get_elem? xs i ≡ some x)
get_elem?-in_range [] i h = absurd (omega arith)
get_elem?-in_range (x ∷ xs) zero h = (x, refl)
get_elem?-in_range (x ∷ xs) (suc i) h = get_elem?-in_range xs i (omega arith)

pub contradiction : {A : Type 0} → false ≡ true → A
contradiction e = absurd (cc)

pub region_ids-known :
    (dm : Regions) (i id : ℕ)
    → get_elem? (region_ids dm) i ≡ some id
    → is_known (region_of id dm) ≡ true
unfolding region_ids region_of
region_ids-known [] i id h = absurd (cc)
region_ids-known ((k, r) ∷ rs) i id h = by_test (region_ids-known rs) (k == id) refl i h
  where
    by_test :
        ((j x : ℕ) → get_elem? (region_ids rs) j ≡ some x → is_known (region_of x rs) ≡ true)
        → (same : Bool) → (k == id) ≡ same
        → (i : ℕ) → get_elem? (k ∷ region_ids rs) i ≡ some id
        → is_known (if same then some r else region_of id rs) ≡ true
    by_test later true e i g = refl
    by_test later false e (suc i) g = later i id g
    by_test later false e zero g = contradiction (sym e ∙ (==_iff k id).1 (some-eq g))

abbrev pub has_nil : Regions → Bool
has_nil [] = false
has_nil ((id, none) ∷ rs) = true
has_nil ((id, some r) ∷ rs) = has_nil rs

abbrev pub is_missing : Option Regions → Bool
is_missing none = true
is_missing (some dm) = false

abbrev pub NotNull : Option (Option DerpRegion) → Type 0
NotNull none = Unit {0}
NotNull (some none) = ⊥
NotNull (some (some r)) = Unit {0}

NotNull-if :
    (b : Bool) (r : DerpRegion) (o : Option (Option DerpRegion))
    → NotNull o
    → NotNull (if b then some (some r) else o)
NotNull-if true r o h = tt
NotNull-if false r o h = h

module _ (shuffle : List DerpNode → List DerpNode) where
  -- The shuffle follows a nil pointer exactly if there is one.
  pub shuffle_nodes-nil : (dm : Regions) → is_missing (shuffle_nodes shuffle dm) ≡ has_nil dm
  unfolding shuffle_nodes
  shuffle_nodes-nil [] = refl
  shuffle_nodes-nil ((id, none) ∷ rs) = refl
  shuffle_nodes-nil ((id, some r) ∷ rs) =
      with_rest (shuffle_nodes shuffle rs) (shuffle_nodes-nil rs)
    where
      with_rest :
          (o : Option Regions)
          → is_missing o ≡ has_nil rs
          → is_missing (cons_region id shuffle (some r) o) ≡ has_nil rs
      with_rest none h = h
      with_rest (some dm) h = h

  -- What holds of the shuffled regions, if there are.
  abbrev pub AllThere : Option Regions → Type 0
  AllThere none = Unit {0}
  AllThere (some dm) = (id : ℕ) → NotNull (region_of id dm)

  pub shuffle_nodes-AllThere : (dm : Regions) → AllThere (shuffle_nodes shuffle dm)
  unfolding shuffle_nodes region_of
  shuffle_nodes-AllThere [] = λ id. tt
  shuffle_nodes-AllThere ((k, none) ∷ rs) = tt
  shuffle_nodes-AllThere ((k, some r) ∷ rs) =
      with_rest (shuffle_nodes shuffle rs) (shuffle_nodes-AllThere rs)
    where
      with_rest : (o : Option Regions) → AllThere o → AllThere (cons_region k shuffle (some r) o)
      with_rest none h = tt
      with_rest (some dm) h = λ id. NotNull-if (k == id) _ (region_of id dm) (h id)

  pub shuffle_nodes-empty : (dm : Regions) → shuffle_nodes shuffle dm ≡ some [] → dm ≡ []
  unfolding shuffle_nodes
  shuffle_nodes-empty [] e = refl
  shuffle_nodes-empty ((k, none) ∷ rs) e = absurd (cc)
  shuffle_nodes-empty ((k, some r) ∷ rs) e = with_rest (shuffle_nodes shuffle rs) e
    where
      with_rest :
          (o : Option Regions)
          → cons_region k shuffle (some r) o ≡ some []
          → ((k, some r) ∷ rs) ≡ []
      with_rest none g = absurd (cc)
      with_rest (some dm) g = absurd (cc)
