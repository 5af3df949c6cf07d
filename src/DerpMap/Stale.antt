-- ===== src/DerpMap/Stale.antt =====
-- A usable cached map is never lost to a failing fetch, and only usable maps enter the cache.
use tailcat_quic.Base.{
  ltb, ◌==◌, Bool-cases, some-eq, ℕ, ◌-◌, ◌≡◌, refl, sym, ap, ◌∙◌, ◌≢◌, ◌⊎◌, inl, inr, false, not,
  ◌&&◌, Option, none, some, List, [], arith,
}
use tailcat_quic.DerpMap.{
  unmade, is_empty, derp_map_cache_max_age, on_response, use_cached, fetch_derp_map, failed,
  answered, Cached, Response, Fetched, decode_derp_map, stale_or, keep_body, read_body,
}

module _ {M : Type 0} (unmarshal : List ℕ → Option M) where
  -- What is put into the cache decodes to the map that is returned.
  abbrev pub IsKept : Fetched M → Option (List ℕ × List ℕ) → Type 0
  IsKept f none = Unit {0}
  IsKept f (some (text, etag)) = (f.result ≡ decode_derp_map unmarshal text) × (f.result ≢ none)

  -- A fetch with a fallback: it keeps what decodes, and fails only if the fallback does not decode.
  record IsSafe (fallback : List ℕ) (f : Fetched M) : Type 0 where
    kept : IsKept f f.put
    falls_back : decode_derp_map unmarshal fallback ≢ none → f.result ≢ none

  stale_or-IsSafe : (d : List ℕ) → IsSafe d (stale_or unmarshal d)
  unfolding stale_or
  stale_or-IsSafe d = record { kept = tt; falls_back = λ h. h }

  keep_body-IsSafe :
      (d body etag : List ℕ) (o : Option M)
      → decode_derp_map unmarshal body ≡ o
      → IsSafe d (keep_body unmarshal d body etag o)
  unfolding keep_body
  keep_body-IsSafe d body etag none e = stale_or-IsSafe d
  keep_body-IsSafe d body etag (some m) e = record {
    kept = (sym e, λ n. cc n);
    falls_back = λ h n. cc n;
  }

  read_body-IsSafe :
      (d etag : List ℕ) (o : Option (List ℕ)) → IsSafe d (read_body unmarshal d etag o)
  unfolding read_body
  read_body-IsSafe d etag none = stale_or-IsSafe d
  read_body-IsSafe d etag (some body) =
      keep_body-IsSafe d body etag (decode_derp_map unmarshal body) refl

  -- A fallback that fetchDERPMap keeps: none, or one that decodes.
  IsFallback : List ℕ → Type 0
  IsFallback d = (d ≡ []) ⊎ (decode_derp_map unmarshal d ≢ none)

  on_response-IsSafe :
      (d etag : List ℕ) (r : Response)
      → IsFallback d
      → r ≢ unmade
      → IsSafe d (on_response unmarshal d etag r)
  unfolding on_response IsFallback
  on_response-IsSafe d etag unmade u n = absurd (n refl)
  on_response-IsSafe d etag failed u n = stale_or-IsSafe d
  on_response-IsSafe d etag (answered status tag body) u n =
      elim (Bool-cases (status == 304 && not (is_empty unmarshal d))) [
        | inl e ↦ rw e (record { kept = (refl, usable u (ground (arith, e))); falls_back = λ h. h })
        | inr e ↦ rw e (elim (Bool-cases (status == 200)) [
          | inl f ↦ rw f (read_body-IsSafe d tag body)
          | inr f ↦ rw f (stale_or-IsSafe d)
        ])
      ]
    where
      usable :
          (d ≡ []) ⊎ (decode_derp_map unmarshal d ≢ none)
          → is_empty unmarshal d ≡ false
          → decode_derp_map unmarshal d ≢ none
      usable (inl e) h = absurd (cc (sym h ∙ ap (is_empty unmarshal) e))
      usable (inr n) h = n

  cached-IsSafe :
      (now : ℕ) (respond : List ℕ → Response) (c : Cached) (o : Option M)
      → ((etag : List ℕ) → respond etag ≢ unmade)
      → decode_derp_map unmarshal c.text ≡ o
      → IsSafe c.text (use_cached unmarshal now respond c o)
  unfolding use_cached IsFallback
  cached-IsSafe now respond c none q e =
      let v = on_response-IsSafe [] [] (respond []) (inl refl) (q []) in
      record { kept = v.kept; falls_back = λ h. absurd (h e) }
  cached-IsSafe now respond c (some m) q e =
      elim (Bool-cases (ltb (now - c.stored_at) derp_map_cache_max_age)) [
        | inl young ↦ rw young (record { kept = tt; falls_back = λ h n. cc n })
        | inr old ↦ rw old (
            on_response-IsSafe c.text c.etag (respond c.etag) (inr (λ n. cc (sym e ∙ n)))
              (q c.etag))
      ]

  -- If a request can be made, whatever the server answers: what fetchDERPMap puts into the cache decodes to the map that it
  -- returns, and with a cached map that decodes, however old, it returns a map.
  pub fetch_derp_map_outcome :
      (now : ℕ) (respond : List ℕ → Response) (o : Option Cached)
      → ((etag : List ℕ) → respond etag ≢ unmade)
      → let f = fetch_derp_map unmarshal now respond o in
        IsKept f f.put
        × ((c : Cached) → o ≡ some c → decode_derp_map unmarshal c.text ≢ none → f.result ≢ none)
  unfolding fetch_derp_map IsFallback
  fetch_derp_map_outcome now respond none q =
      ((on_response-IsSafe [] [] (respond []) (inl refl) (q [])).kept, λ c e. absurd (cc e))
  fetch_derp_map_outcome now respond (some c) q =
      let v = cached-IsSafe now respond c (decode_derp_map unmarshal c.text) q refl in
      (
        v.kept,
        λ c' e h.
            v.falls_back (λ n.
              h (ap (λ (x : Cached). decode_derp_map unmarshal x.text) (sym (some-eq e)) ∙ n)),
      )
