-- ===== src/DerpMap/Region/Detected.antt =====
-- Which region Expand finds for the RegionID -1.
use tailcat_quic.Base.{
  ◌==◌, if◌then◌else◌, ==_iff, length, get_elem?, ℕ, ◌*◌, ◌<◌, ◌≡◌, refl, sym, ◌∙◌, subst, ◌⊎◌, inl,
  inr, Bool, true, false, Option, none, some, List, [], ◌∷◌, arith,
}
use tailcat_quic.Results.{Ends, Ends-mono}
use tailcat_quic.Address.{DerpRegion, ConnInfo}
use tailcat_quic.Lease.{second}
use tailcat_quic.DerpMap.Region.{
  Regions, region_of, is_known, pick_best_region, ExpandError, fetch_failed, netcheck_failed,
  no_regions, no_such_region, nil_followed, nil_embedded, region_ids, Outside, embed, draw,
  any_region, on_pick,
}
use tailcat_quic.DerpMap.Region.Best.{In, IsFastest, pick_best_region-IsFastest}
use tailcat_quic.DerpMap.Region.Shuffled.{
  get_elem?-in_range, contradiction, region_ids-known, NotNull,
}

module _ (outside : Outside) where
  -- The ID of the region: that of the netcheck, or if that is 0 the one that is drawn.
  abbrev pub IsChosen : Regions → Bool → ℕ → ℕ → Type 0
  IsChosen dm true picked id =
      get_elem? (region_ids dm) (outside.intn (length (region_ids dm))) ≡ some id
  IsChosen dm false picked id = id ≡ picked

  -- Why a map finds no region for the RegionID -1, once its nodes are shuffled.
  abbrev pub NoPick : Regions → ExpandError → Type 0
  NoPick dm netcheck_failed = outside.netcheck dm ≡ none
  NoPick dm no_regions = dm ≡ []
  NoPick dm fetch_failed = ⊥
  NoPick dm no_such_region = ⊥
  NoPick dm nil_followed = ⊥
  NoPick dm nil_embedded = ⊥

module _ {N D : Type 0} (outside : Outside) where
  -- The region of an ID is the only one.
  abbrev pub EmbedsId : ConnInfo N D → Regions → ℕ → ConnInfo N D → Type 0
  EmbedsId ci dm id out =
      (r : DerpRegion) × (region_of id dm ≡ some (some r))
      × (out ≡ record ci { region_id = 0; region = r ∷ [] })

  -- The region that is found for the RegionID -1.
  abbrev pub Detects : ConnInfo N D → Regions → ConnInfo N D → Type 0
  Detects ci dm out =
      (latencies : List (ℕ × ℕ)) × (outside.netcheck dm ≡ some latencies)
      × (picked : ℕ) × IsFastest dm latencies picked
      × (id : ℕ) × IsChosen outside dm (picked == 0) picked id
      × EmbedsId ci dm id out

  module _ (ci : ConnInfo N D) (dm : Regions) (there : (id : ℕ) → NotNull (region_of id dm)) where
    embed-Ends :
        (id : ℕ)
        → is_known (region_of id dm) ≡ true
        → Ends (NoPick outside dm) (EmbedsId ci dm id) (embed outside ci (region_of id dm))
    embed-Ends id known = by_region (region_of id dm) refl known (there id)
      where
        by_region :
            (o : Option (Option DerpRegion))
            → region_of id dm ≡ o
            → is_known o ≡ true
            → NotNull o
            → Ends (NoPick outside dm) (EmbedsId ci dm id) (embed outside ci o)
        by_region none e k n = contradiction k
        by_region (some none) e k n = n
        by_region (some (some r)) e k n = (r, e, refl)

    module _ (latencies : List (ℕ × ℕ)) (report : outside.netcheck dm ≡ some latencies) (picked : ℕ)
        (fastest : IsFastest dm latencies picked) where
      chosen-Ends :
          (id : ℕ) (zero_id : Bool)
          → (picked == 0) ≡ zero_id
          → IsChosen outside dm zero_id picked id
          → is_known (region_of id dm) ≡ true
          → Ends (NoPick outside dm) (Detects ci dm) (embed outside ci (region_of id dm))
      chosen-Ends id zero_id z c known =
          Ends-mono (NoPick outside dm) (EmbedsId ci dm id) (Detects ci dm)
            (embed outside ci (region_of id dm)) (embed-Ends id known)
            (λ out one. (
              latencies,
              report,
              picked,
              fastest,
              id,
              subst (λ b. IsChosen outside dm b picked id) (sym z) c,
              one,
            ))

    draw-Ends :
        (latencies : List (ℕ × ℕ))
        → outside.netcheck dm ≡ some latencies
        → (picked : ℕ) → IsFastest dm latencies picked
        → (picked == 0) ≡ true
        → (id : ℕ) × (get_elem? (region_ids dm) (outside.intn (length (region_ids dm))) ≡ some id)
        → Ends
            (NoPick outside dm)
            (Detects ci dm)
            (draw outside ci dm (get_elem? (region_ids dm) (outside.intn (length (region_ids dm)))))
    draw-Ends latencies report picked fastest z (id, e) =
        subst (λ o. Ends (NoPick outside dm) (Detects ci dm) (draw outside ci dm o)) (sym e)
          (chosen-Ends latencies report picked fastest id true z e
            (region_ids-known dm (outside.intn (length (region_ids dm))) id e))

  module _ (intn_below : (n : ℕ) → 0 < n → outside.intn n < n) where
    any_region-Ends :
        (ci : ConnInfo N D) (dm : Regions)
        → ((id : ℕ) → NotNull (region_of id dm))
        → (latencies : List (ℕ × ℕ)) → outside.netcheck dm ≡ some latencies
        → (picked : ℕ) → IsFastest dm latencies picked
        → (picked == 0) ≡ true
        → Ends (NoPick outside dm) (Detects ci dm) (any_region outside ci dm)
    unfolding region_ids
    any_region-Ends ci [] there latencies report picked fastest z = refl
    any_region-Ends ci (entry ∷ rs) there latencies report picked fastest z =
        draw-Ends ci (entry ∷ rs) there latencies report picked fastest z (
          get_elem?-in_range ids (outside.intn (length ids))
            (intn_below (length ids) (omega arith)))
      where
        ids : List ℕ
        ids = region_ids (entry ∷ rs)

    picked-Ends :
        (ci : ConnInfo N D) (dm : Regions)
        → ((id : ℕ) → NotNull (region_of id dm))
        → (latencies : List (ℕ × ℕ)) → outside.netcheck dm ≡ some latencies
        → (picked : ℕ) → IsFastest dm latencies picked
        → Ends (NoPick outside dm) (Detects ci dm) (on_pick outside ci dm (some picked))
    picked-Ends ci dm there latencies report picked fastest = by_zero (picked == 0) refl
      where
        by_zero :
            (zero_id : Bool)
            → (picked == 0) ≡ zero_id
            → Ends (NoPick outside dm) (Detects ci dm) (
                if zero_id
                then any_region outside ci dm
                else embed outside ci (region_of picked dm))
        by_zero true z = any_region-Ends ci dm there latencies report picked fastest z
        by_zero false z = of_origin fastest.origin
          where
            of_origin :
                ((picked ≡ 0) × (fastest.latency ≡ 3600 * second))
                  ⊎ (In (picked, fastest.latency) latencies
                      × (is_known (region_of picked dm) ≡ true))
                → Ends (NoPick outside dm) (Detects ci dm) (embed outside ci (region_of picked dm))
            of_origin (inl (p, l)) = contradiction (sym z ∙ (==_iff picked 0).1 p)
            of_origin (inr (i, known)) =
                chosen-Ends ci dm there latencies report picked fastest picked false z refl known

    pub reported-Ends :
        (ci : ConnInfo N D) (dm : Regions)
        → ((id : ℕ) → NotNull (region_of id dm))
        → (report : Option (List (ℕ × ℕ))) → outside.netcheck dm ≡ report
        → Ends
            (NoPick outside dm)
            (Detects ci dm)
            (on_pick outside ci dm (pick_best_region dm report))
    unfolding pick_best_region
    reported-Ends ci dm there none e = e
    reported-Ends ci dm there (some latencies) e =
        picked-Ends ci dm there latencies e _ (pick_best_region-IsFastest dm latencies _ refl)
