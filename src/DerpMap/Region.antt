-- ===== src/DerpMap/Region.antt =====
-- PickBestRegion of pickregion.go and Expand of tailcat.go, from the results of the netcheck and of the
-- fetch of the DERP map on. Regions of a DERP map are listed by ascending ID.
pub mod Best
pub mod Shuffled
pub mod Detected
pub mod Found
use tailcat_quic.Base.{
  ltb, leb, ◌==◌, if◌then◌else◌, ltb→lt, lt→ltb, leb→le, ==_iff, Bool-cases, Option-cases, Eq, beq,
  beq_refl, eq_of_beq, not_rejected, was_required, or-eq_false, not-eq_false, some-eq, length,
  get_elem?, get_or, take, drop, replicate, length-append, take-append-drop, length-take,
  length-drop, take-length_append, drop-length_append, take-of_length, drop-of_length,
  length-replicate, All, any, take-two_fields, take-drop-two_fields, drop-drop-two_fields,
  three_fields, drop-drop, four_fields, codes, bytes_eq, bytes_eq_sound, bytes_eq_self,
  bytes_eq_iff, slice, has_prefix, IsByte, lookup, insert, erase, lookup-insert, lookup-erase,
  length-erase-le, length-erase-present, length-insert-absent, ℕ, zero, suc, ◌+◌, ◌-◌, ◌*◌, ◌/◌,
  ◌%◌, ◌^◌, ◌≤◌, ◌<◌, max, min, compare, Ordering, ◌≡◌, refl, sym, ap, ap₂, ◌∙◌, subst, ◌≢◌, ◌↔◌,
  ◌⊎◌, inl, inr, Bool, true, false, not, ◌&&◌, ◌||◌, Option, none, some, List, [], ◌∷◌, ◌++◌, map,
  append_assoc, append-nil, arith, ℕ_discrete,
}
use tailcat_quic.Results.{Result, ok, err}
use tailcat_quic.Address.{DerpNode, DerpRegion, ConnInfo}
use tailcat_quic.Lease.{second}

-- The field Regions of tailcfg.DERPMap. A null of the JSON is a nil pointer, `none`.
abbrev pub Regions : Type 0
Regions = List (ℕ × Option DerpRegion)

-- The pointer of a key, if the map has it.
unfoldable pub region_of : ℕ → Regions → Option (Option DerpRegion)
region_of id [] = none
region_of id ((k, r) ∷ rs) = let later = region_of id rs in if k == id then some r else later

abbrev pub is_known : Option (Option DerpRegion) → Bool
is_known none = false
is_known (some r) = true

-- A round of the loop of PickBestRegion: the best latency so far, and its region.
unfoldable pub faster : Regions → ℕ × ℕ → ℕ × ℕ → ℕ × ℕ
unfolding region_of
faster dm (rid, d) (best, id) =
    if is_known (region_of rid dm) && ltb d best then (d, rid) else (best, id)

-- The loop of PickBestRegion over RegionLatency.
unfoldable pub best_region : Regions → ℕ × ℕ → List (ℕ × ℕ) → ℕ × ℕ
unfolding faster
best_region dm best [] = best
best_region dm best (entry ∷ latencies) = best_region dm (faster dm entry best) latencies

-- PickBestRegion, by the latencies that GetReport measured, or `none` where it fails.
unfoldable pub pick_best_region : Regions → Option (List (ℕ × ℕ)) → Option ℕ
unfolding best_region
pick_best_region dm none = none
pick_best_region dm (some latencies) = some ((best_region dm (3600 * second, 0) latencies).1)

-- How Expand ends without a region: its errors, a nil pointer that it follows, and a nil pointer that it
-- embeds as the region, with no error.
pub data ExpandError : Type 0 where
  fetch_failed netcheck_failed no_regions no_such_region : ExpandError
  nil_followed nil_embedded : ExpandError

-- The RegionID -1, as a 64-bit integer.
abbrev pub auto_region : ℕ
auto_region = 18446744073709551615

-- The loops over the embedded regions and their nodes.
unfoldable pub number_node : ℕ → DerpNode → DerpNode
number_node id n = record n { region_id = if n.region_id == 0 then id else n.region_id }

unfoldable pub number_region : DerpRegion → DerpRegion
unfolding number_node
number_region r =
    let id = if r.region_id == 0 then 1 else r.region_id in
    record r { region_id = id; nodes = map (number_node id) r.nodes }

-- slices.Sorted(maps.Keys(regions))
unfoldable pub region_ids : Regions → List ℕ
region_ids [] = []
region_ids ((id, r) ∷ rs) = id ∷ region_ids rs

-- What Expand asks the outside: the fetch of the map, the shuffle of a region's nodes, the netcheck, and
-- rand.Intn.
pub record Outside : Type 0 where
  pub fetched : Option Regions
  pub shuffle : List DerpNode → List DerpNode
  pub netcheck : Regions → Option (List (ℕ × ℕ))
  pub intn : ℕ → ℕ

abbrev pub cons_region :
    (id : ℕ) (shuffle : List DerpNode → List DerpNode)
    → Option DerpRegion
    → Option Regions
    → Option Regions
cons_region id shuffle none rs = none
cons_region id shuffle (some r) none = none
cons_region id shuffle (some r) (some rs) =
    some ((id, some (record r { nodes = shuffle r.nodes })) ∷ rs)

-- The loop that shuffles the nodes of each region, or `none` if it follows a nil pointer.
unfoldable pub shuffle_nodes : (List DerpNode → List DerpNode) → Regions → Option Regions
shuffle_nodes shuffle [] = some []
shuffle_nodes shuffle ((id, r) ∷ rs) = cons_region id shuffle r (shuffle_nodes shuffle rs)

abbrev pub or_fetched : Option Regions → Option Regions → Option Regions
or_fetched fetched none = fetched
or_fetched fetched (some dm) = some dm

abbrev pub is_none : List DerpRegion → Bool
is_none [] = true
is_none (r ∷ rs) = false

module _ {N D : Type 0} (outside : Outside) where
  -- The region of an ID, as the only one. The map has the ID.
  abbrev pub embed : ConnInfo N D → Option (Option DerpRegion) → Result ExpandError (ConnInfo N D)
  embed ci none = err nil_embedded
  embed ci (some none) = err nil_embedded
  embed ci (some (some r)) = ok (record ci { region_id = 0; region = r ∷ [] })

  -- The random choice after a netcheck that measured nothing.
  abbrev pub draw : ConnInfo N D → Regions → Option ℕ → Result ExpandError (ConnInfo N D)
  draw ci dm none = err nil_embedded
  draw ci dm (some id) = embed ci (region_of id dm)

  abbrev pub any_region : ConnInfo N D → Regions → Result ExpandError (ConnInfo N D)
  any_region ci [] = err no_regions
  any_region ci (r ∷ rs) =
      draw ci (r ∷ rs)
        (get_elem? (region_ids (r ∷ rs)) (outside.intn (length (region_ids (r ∷ rs)))))

  abbrev pub on_pick : ConnInfo N D → Regions → Option ℕ → Result ExpandError (ConnInfo N D)
  on_pick ci dm none = err netcheck_failed
  on_pick ci dm (some id) = if id == 0 then any_region ci dm else embed ci (region_of id dm)

  abbrev pub on_shuffled : ConnInfo N D → Option Regions → Result ExpandError (ConnInfo N D)
  on_shuffled ci none = err nil_followed
  on_shuffled ci (some dm) = on_pick ci dm (pick_best_region dm (outside.netcheck dm))

  -- `ci.RegionID == -1`
  unfoldable pub detect_region : ConnInfo N D → Regions → Result ExpandError (ConnInfo N D)
  unfolding pick_best_region region_of shuffle_nodes region_ids
  detect_region ci regions = on_shuffled ci (shuffle_nodes outside.shuffle regions)

  abbrev pub on_region :
      ConnInfo N D → Option (Option DerpRegion) → Result ExpandError (ConnInfo N D)
  on_region ci none = err no_such_region
  on_region ci (some none) = err nil_embedded
  on_region ci (some (some r)) = ok (record ci { region = r ∷ [] })

  abbrev pub on_map : ConnInfo N D → Option Regions → Result ExpandError (ConnInfo N D)
  on_map ci none = err fetch_failed
  on_map ci (some dm) =
      if ci.region_id == auto_region
      then detect_region ci dm
      else on_region ci (region_of ci.region_id dm)

  -- Expand, with a map of the options or without. No embedded region is nil: ParseAddr refuses those.
  unfoldable pub expand : Option Regions → ConnInfo N D → Result ExpandError (ConnInfo N D)
  unfolding number_region detect_region region_of
  expand given ci =
      let numbered = record ci { region = map number_region ci.region } in
      if not (is_none ci.region) || ci.region_id == 0
      then ok numbered
      else on_map numbered (or_fetched outside.fetched given)
