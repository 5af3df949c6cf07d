-- ===== src/Examples/Relays.antt =====
-- The choice of a relay at concrete inputs.
use tailcat_quic.Base.{codes, ℕ, ◌≡◌, refl, none, some, List, [], ◌∷◌}
use tailcat_quic.Results.{ok, err, Ends}
use tailcat_quic.Address.{DerpRegion, ConnInfo}
use tailcat_quic.DerpMap.Region.{
  nil_embedded, Outside, auto_region, expand, detect_region, pick_best_region, best_region, faster,
  region_of, shuffle_nodes, region_ids,
}
use tailcat_quic.DerpMap.Region.Found.{Unexpanded, Expanded, expand_outcome}

abbrev region : ℕ → DerpRegion
region id = record { region_id = id; region_code = codes "r"; region_name = []; nodes = [] }

-- Two regions, the second the faster one.
abbrev outside : Outside
outside = record {
  fetched = some ((1, some (region 1)) ∷ ((2, some (region 2)) ∷ []));
  shuffle = λ nodes. nodes;
  netcheck = λ dm. some ((1, 50) ∷ ((2, 20) ∷ []));
  intn = λ n. 0;
}

abbrev info : ConnInfo (List ℕ) (List ℕ)
info = record {
  server_public = 1 ∷ [];
  server_disco_public = 2 ∷ [];
  preshared_key = 3 ∷ [];
  region = [];
  region_id = auto_region;
}

picks_fastest :
    expand outside none info ≡ ok (record info { region = region 2 ∷ []; region_id = 0 })
unfolding expand detect_region pick_best_region best_region faster region_of shuffle_nodes
    region_ids
picks_fastest = refl

-- A map with a null region, which is embedded if it is named.
with_null :
    expand outside (some ((7, none) ∷ [])) (record info { region_id = 7 }) ≡ err nil_embedded
unfolding expand region_of
with_null = refl

expand_outcome_example :
    Ends (Unexpanded outside none info) (Expanded outside none info) (expand outside none info)
expand_outcome_example = expand_outcome outside (λ n h. h) none info
