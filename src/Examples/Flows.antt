-- ===== src/Examples/Flows.antt =====
-- The properties of idle flows and of the DERP map fetch at concrete inputs.
use tailcat_quic.Base.{
  leb, if◌then◌else◌, ℕ, ◌+◌, ◌≡◌, ◌≢◌, true, false, Option, none, some, List, [], ◌∷◌,
}
use tailcat_quic.Idle.{new_idle_packet_conn, check_idle, Event, io, fire, handle_all}
use tailcat_quic.Idle.Timeout.{last_activity, ends, handle_all_outcome}
use tailcat_quic.DerpMap.{Cached, Response, failed, Fetched, decode_derp_map, fetch_derp_map}
use tailcat_quic.DerpMap.Stale.{IsKept, fetch_derp_map_outcome}

abbrev events : List Event
events = io true 5 ∷ fire 12 ∷ io false 14 ∷ []

handle_all_outcome_example :
    let c = handle_all events (new_idle_packet_conn 10 0) in
    let expiry = last_activity 0 events + 10 in
    (c.closed ≡ ends 10 0 events)
    × (c.closes ≡ (if c.closed then 1 else 0))
    × (c.closed ≡ false → (c.timer ≡ some expiry) × ((check_idle 20 c).closed ≡ leb expiry 20))
handle_all_outcome_example = handle_all_outcome 10 0 events 20

abbrev decode : List ℕ → Option (List ℕ)
decode text = some text

abbrev unreachable : List ℕ → Response
unreachable etag = failed

abbrev old_copy : Cached
old_copy = record { text = 1 ∷ []; etag = []; stored_at = 0 }

abbrev fetched : Fetched (List ℕ)
fetched = fetch_derp_map decode 9000000000000 unreachable (some old_copy)

fetch_derp_map_outcome_example :
    IsKept decode fetched fetched.put
    × ((c : Cached)
        → some old_copy ≡ some c
        → decode_derp_map decode c.text ≢ none
        → fetched.result ≢ none)
fetch_derp_map_outcome_example =
    fetch_derp_map_outcome decode 9000000000000 unreachable (some old_copy) (λ etag e. cc e)
