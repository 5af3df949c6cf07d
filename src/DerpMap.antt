-- ===== src/DerpMap.antt =====
-- tailcat.go: fetchDERPMap, the fetch of the DERP map with a cache. `M` is a decoded map; JSON and the
-- network are parameters.
pub mod Stale
pub mod Region
use tailcat_quic.Base.{
  ltb, leb, ◌==◌, if◌then◌else◌, ltb→lt, lt→ltb, leb→le, ==_iff, Bool-cases, Option-cases, Eq, beq,
  beq_refl, eq_of_beq, not_rejected, was_required, or-eq_false, not-eq_false, some-eq, length,
  get_elem?, get_or, take, drop, replicate, length-append, take-append-drop, length-take,
  length-drop, take-length_append, drop-length_append, take-of_length, drop-of_length,
  length-replicate, All, any, take-two_fields, take-drop-two_fields, drop-drop-two_fields,
  three_fields, drop-drop, four_fields, codes, bytes_eq, bytes_eq_sound, bytes_eq_self,
  bytes_eq_iff, slice, has_prefix, IsByte, lookup, insert, erase, lookup-insert, lookup-erase,
  length-erase-le, length-erase-present, length-insert-absent, ℕ, zero, suc, ◌+◌, ◌-◌, ◌*◌, ◌/◌,
  ◌%◌, ◌^◌, ◌≤◌, ◌<◌, max, min, compare, Ordering, ◌≡◌, refl, sym, ap, ap₂, ◌∙◌, subst, ◌≢◌, ◌↔◌,
  ◌⊎◌, inl, inr, Bool, true, false, not, ◌&&◌, ◌||◌, Option, none, some, List, [], ◌∷◌, ◌++◌, map,
  append_assoc, append-nil, arith, ℕ_discrete,
}
use tailcat_quic.Lease.{second}

-- time.Hour
abbrev pub derp_map_cache_max_age : ℕ
derp_map_cache_max_age = 3600 * second

-- What a DERPMapCache holds for an URL.
pub record Cached : Type 0 where
  pub text : List ℕ
  pub etag : List ℕ
  pub stored_at : ℕ

-- The outcome of the HTTP request: it cannot be made, it fails, or it is answered. `body` is `none` if
-- reading it fails.
pub data Response : Type 0 where
  unmade failed : Response
  answered : (status : ℕ) (etag : List ℕ) (body : Option (List ℕ)) → Response

-- What fetchDERPMap did: its result, whether it made a request, and what it put into the cache.
pub record Fetched (M : Type 0) : Type 0 where
  pub result : Option M
  pub requested : Bool
  pub put : Option (List ℕ × List ℕ)

module _ {M : Type 0} (unmarshal : List ℕ → Option M) where
  -- decodeDERPMap
  unfoldable pub decode_derp_map : List ℕ → Option M
  decode_derp_map [] = none
  decode_derp_map (c ∷ text) = unmarshal (c ∷ text)

  -- staleOr: the stale copy, or an error.
  unfoldable pub stale_or : List ℕ → Fetched M
  unfolding decode_derp_map
  stale_or cached_map = record { result = decode_derp_map cached_map; requested = true; put = none }

  -- The end of fetchDERPMap, with the body decoded or not.
  unfoldable pub keep_body : List ℕ → List ℕ → List ℕ → Option M → Fetched M
  unfolding stale_or
  keep_body cached_map body etag none = stale_or cached_map
  keep_body cached_map body etag (some dm) = record {
    result = some dm;
    requested = true;
    put = some (body, etag);
  }

  -- A response of status 200, with its body.
  unfoldable pub read_body : List ℕ → List ℕ → Option (List ℕ) → Fetched M
  unfolding stale_or keep_body decode_derp_map
  read_body cached_map etag none = stale_or cached_map
  read_body cached_map etag (some body) = keep_body cached_map body etag (decode_derp_map body)

  abbrev pub is_empty : List ℕ → Bool
  is_empty [] = true
  is_empty (c ∷ t) = false

  -- What fetchDERPMap makes of the response; cachedData is nil or not empty.
  unfoldable pub on_response : List ℕ → List ℕ → Response → Fetched M
  unfolding stale_or read_body decode_derp_map
  on_response cached_map cached_etag unmade = record {
    result = none;
    requested = false;
    put = none;
  }
  on_response cached_map cached_etag failed = stale_or cached_map
  on_response cached_map cached_etag (answered status etag body) =
      if status == 304 && not (is_empty cached_map)
      then record {
        result = decode_derp_map cached_map;
        requested = true;
        put = some (cached_map, cached_etag);
      }
      else if status == 200
      then read_body cached_map etag body
      else stale_or cached_map

  -- The first part of fetchDERPMap: a cached map that decodes is used if it is young, and kept as a
  -- fallback otherwise. The server answers by the ETag sent.
  unfoldable pub use_cached : ℕ → (List ℕ → Response) → Cached → Option M → Fetched M
  unfolding on_response
  use_cached now respond c none = on_response [] [] (respond [])
  use_cached now respond c (some dm) =
      if ltb (now - c.stored_at) derp_map_cache_max_age
      then record { result = some dm; requested = false; put = none }
      else on_response c.text c.etag (respond c.etag)

  -- fetchDERPMap
  unfoldable pub fetch_derp_map : ℕ → (List ℕ → Response) → Option Cached → Fetched M
  unfolding use_cached on_response decode_derp_map
  fetch_derp_map now respond none = on_response [] [] (respond [])
  fetch_derp_map now respond (some c) = use_cached now respond c (decode_derp_map c.text)
