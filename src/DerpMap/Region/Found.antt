-- ===== src/DerpMap/Region/Found.antt =====
-- Which region Expand embeds, and why it ends without one.
use tailcat_quic.Base.{
  ◌==◌, if◌then◌else◌, ℕ, ◌<◌, ◌≡◌, refl, sym, ap, ◌∙◌, ◌⊎◌, inl, inr, Bool, true, false, not, ◌||◌,
  Option, none, some, [], ◌∷◌, map,
}
use tailcat_quic.Results.{ok, Ends, Ends-map}
use tailcat_quic.Address.{DerpRegion, ConnInfo}
use tailcat_quic.DerpMap.Region.{
  Regions, region_of, pick_best_region, ExpandError, fetch_failed, netcheck_failed, no_regions,
  no_such_region, nil_followed, nil_embedded, auto_region, number_region, Outside, shuffle_nodes,
  or_fetched, is_none, on_pick, on_shuffled, detect_region, on_region, on_map, expand,
}
use tailcat_quic.DerpMap.Region.Shuffled.{
  has_nil, is_missing, shuffle_nodes-nil, AllThere, shuffle_nodes-AllThere, shuffle_nodes-empty,
}
use tailcat_quic.DerpMap.Region.Detected.{NoPick, Detects, reported-Ends}

module _ {N D : Type 0} (outside : Outside) where
  -- The map that is given or fetched has a region that is not nil under the RegionID, or for -1 it has
  -- no nil region, and the region is the one that is detected once the nodes are shuffled.
  abbrev Finds : ConnInfo N D → Regions → Bool → ConnInfo N D → Type 0
  Finds ci dm false out =
      (r : DerpRegion) × (region_of ci.region_id dm ≡ some (some r))
      × (out ≡ record ci { region = r ∷ [] })
  Finds ci dm true out =
      (shuffled : Regions) × (shuffle_nodes outside.shuffle dm ≡ some shuffled)
      × Detects outside ci shuffled out

  -- Why a map gives no region, by whether the RegionID is -1.
  abbrev NotFound : ConnInfo N D → Regions → Bool → ExpandError → Type 0
  NotFound ci dm false no_such_region = region_of ci.region_id dm ≡ none
  NotFound ci dm false nil_embedded = region_of ci.region_id dm ≡ some none
  NotFound ci dm true nil_followed = has_nil dm ≡ true
  NotFound ci dm true no_regions = dm ≡ []
  NotFound ci dm true netcheck_failed =
      (shuffled : Regions) × (shuffle_nodes outside.shuffle dm ≡ some shuffled)
      × (outside.netcheck shuffled ≡ none)
  NotFound ci dm auto e = ⊥

  -- The embedded regions and their nodes numbered.
  abbrev numbered : ConnInfo N D → ConnInfo N D
  numbered ci = record ci { region = map number_region ci.region }

  abbrev asks_nothing : ConnInfo N D → Bool
  asks_nothing ci = not (is_none ci.region) || ci.region_id == 0

  -- Embedded regions are kept, and nothing is found where no region is asked for.
  abbrev pub Expanded : Option Regions → ConnInfo N D → ConnInfo N D → Type 0
  Expanded given ci out =
      ((asks_nothing ci ≡ true) × (out ≡ numbered ci))
      ⊎ ((asks_nothing ci ≡ false)
          × (dm : Regions) × (or_fetched outside.fetched given ≡ some dm)
          × Finds (numbered ci) dm (ci.region_id == auto_region) out)

  -- Why Expand ends without a region.
  abbrev pub Unexpanded : Option Regions → ConnInfo N D → ExpandError → Type 0
  Unexpanded given ci e =
      (asks_nothing ci ≡ false)
      × (((e ≡ fetch_failed) × (or_fetched outside.fetched given ≡ none))
          ⊎ ((dm : Regions) × (or_fetched outside.fetched given ≡ some dm)
              × NotFound (numbered ci) dm (ci.region_id == auto_region) e))

  module _ (intn_below : (n : ℕ) → 0 < n → outside.intn n < n) where
    detect_region-Ends :
        (ci : ConnInfo N D) (dm : Regions)
        → Ends (NotFound ci dm true) (Finds ci dm true) (detect_region outside ci dm)
    unfolding detect_region
    detect_region-Ends ci dm =
        by_shuffle (shuffle_nodes outside.shuffle dm) refl
          (shuffle_nodes-AllThere outside.shuffle dm)
      where
        not_picked :
            (shuffled : Regions)
            → shuffle_nodes outside.shuffle dm ≡ some shuffled
            → (e : ExpandError) → NoPick outside shuffled e
            → NotFound ci dm true e
        not_picked shuffled g fetch_failed h = absurd h
        not_picked shuffled g netcheck_failed h = (shuffled, g, h)
        not_picked shuffled g no_regions h = shuffle_nodes-empty outside.shuffle dm (g ∙ ap some h)
        not_picked shuffled g no_such_region h = absurd h
        not_picked shuffled g nil_followed h = absurd h
        not_picked shuffled g nil_embedded h = absurd h

        by_shuffle :
            (o : Option Regions)
            → shuffle_nodes outside.shuffle dm ≡ o
            → AllThere outside.shuffle o
            → Ends (NotFound ci dm true) (Finds ci dm true) (on_shuffled outside ci o)
        by_shuffle none g there = sym (shuffle_nodes-nil outside.shuffle dm) ∙ ap is_missing g
        by_shuffle (some shuffled) g there =
            Ends-map (NoPick outside shuffled) (NotFound ci dm true) (Detects outside ci shuffled)
              (Finds ci dm true)
              (on_pick outside ci shuffled (pick_best_region shuffled (outside.netcheck shuffled)))
              (reported-Ends outside intn_below ci shuffled there (outside.netcheck shuffled) refl)
              (not_picked shuffled g) (λ out d. (shuffled, g, d))

    map-Ends :
        (ci : ConnInfo N D) (dm : Regions) (auto : Bool)
        → Ends (NotFound ci dm auto) (Finds ci dm auto) (
            if auto
            then detect_region outside ci dm
            else on_region outside ci (region_of ci.region_id dm))
    map-Ends ci dm true = detect_region-Ends ci dm
    map-Ends ci dm false = by_region (region_of ci.region_id dm) refl
      where
        by_region :
            (o : Option (Option DerpRegion))
            → region_of ci.region_id dm ≡ o
            → Ends (NotFound ci dm false) (Finds ci dm false) (on_region outside ci o)
        by_region none e = e
        by_region (some none) e = e
        by_region (some (some r)) e = (r, e, refl)

    -- Expand keeps embedded regions, numbered, and does nothing where no region is asked for. Otherwise,
    -- with the map that is given or fetched, it embeds the region of the RegionID; for the RegionID -1 it
    -- embeds, of the regions with their nodes shuffled, the one of the least latency under an hour, or a
    -- drawn one if the netcheck measured none. If it ends without a region, the reason holds: the fetch
    -- failed, there is no such region, the netcheck failed, the map is empty, or it has a null for a
    -- region: then a nil pointer is followed for -1, and a nil region embedded where the RegionID names it.
    pub expand_outcome :
        (given : Option Regions) (ci : ConnInfo N D)
        → Ends (Unexpanded given ci) (Expanded given ci) (expand outside given ci)
    unfolding expand
    expand_outcome given ci = by_kept (asks_nothing ci) refl
      where
        of_map :
            asks_nothing ci ≡ false
            → (dm : Option Regions) → or_fetched outside.fetched given ≡ dm
            → Ends (Unexpanded given ci) (Expanded given ci) (on_map outside (numbered ci) dm)
        of_map k none e = (k, inl (refl, e))
        of_map k (some dm) e =
            Ends-map (NotFound (numbered ci) dm (ci.region_id == auto_region)) (Unexpanded given ci)
              (Finds (numbered ci) dm (ci.region_id == auto_region)) (Expanded given ci)
              (on_map outside (numbered ci) (some dm))
              (map-Ends (numbered ci) dm (ci.region_id == auto_region))
              (λ x why. (k, inr (dm, e, why))) (λ out one. inr (k, dm, e, one))

        by_kept :
            (kept : Bool)
            → asks_nothing ci ≡ kept
            → Ends (Unexpanded given ci) (Expanded given ci) (
                if kept
                then ok (numbered ci)
                else on_map outside (numbered ci) (or_fetched outside.fetched given))
        by_kept true e = inl (e, refl)
        by_kept false e = of_map e (or_fetched outside.fetched given) refl
