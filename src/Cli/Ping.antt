-- ===== src/Cli/Ping.antt =====
-- The loop of clientPingMode in cmd/tailcat/tailcat.go. Times are nanoseconds; DiscoPing, the clock and
-- how long time.Sleep oversleeps are arguments.
pub mod Ends
use tailcat_quic.Base.{
  ltb, leb, ◌==◌, if◌then◌else◌, ltb→lt, lt→ltb, leb→le, ==_iff, Bool-cases, Option-cases, Eq, beq,
  beq_refl, eq_of_beq, not_rejected, was_required, or-eq_false, not-eq_false, some-eq, length,
  get_elem?, get_or, take, drop, replicate, length-append, take-append-drop, length-take,
  length-drop, take-length_append, drop-length_append, take-of_length, drop-of_length,
  length-replicate, All, any, take-two_fields, take-drop-two_fields, drop-drop-two_fields,
  three_fields, drop-drop, four_fields, codes, bytes_eq, bytes_eq_sound, bytes_eq_self,
  bytes_eq_iff, slice, has_prefix, IsByte, lookup, insert, erase, lookup-insert, lookup-erase,
  length-erase-le, length-erase-present, length-insert-absent, ℕ, zero, suc, ◌+◌, ◌-◌, ◌*◌, ◌/◌,
  ◌%◌, ◌^◌, ◌≤◌, ◌<◌, max, min, compare, Ordering, ◌≡◌, refl, sym, ap, ap₂, ◌∙◌, subst, ◌≢◌, ◌↔◌,
  ◌⊎◌, inl, inr, Bool, true, false, not, ◌&&◌, ◌||◌, Option, none, some, List, [], ◌∷◌, ◌++◌, map,
  append_assoc, append-nil, arith, ℕ_discrete,
}
use tailcat_quic.Lease.{second}

-- What DiscoPing returns: a pong with the endpoint that it came from, empty for a DERP relay, or an
-- error, which may be that the deadline passed.
pub data PingResult : Type 0 where
  pong : (endpoint : List ℕ) → PingResult
  deadline_exceeded failed : PingResult

-- One round: how long DiscoPing takes and what it returns, the time to the clock reading of
-- time.Until, to that of time.Since, and how much longer than asked the loop sleeps.
pub record Round : Type 0 where
  pub took : ℕ
  pub result : PingResult
  pub printing : ℕ
  pub pausing : ℕ
  pub oversleep : ℕ

-- How the loop ends: `no_direct_path` and `ping_failed` are log.Fatal.
pub data PingEnd : Type 0 where
  done no_direct_path ping_failed : PingEnd

abbrev pub is_empty : List ℕ → Bool
is_empty [] = true
is_empty (c ∷ s) = false

-- The end of a round, or `none` to go on.
unfoldable pub judge : Bool → ℕ → ℕ → PingResult → Option PingEnd
judge until_direct deadline now failed = some ping_failed
judge until_direct deadline now deadline_exceeded =
    some (if until_direct then no_direct_path else ping_failed)
judge until_direct deadline now (pong endpoint) =
    if not (is_empty endpoint) || not until_direct
    then some done
    else if ltb deadline (now + second / 2)
    then some no_direct_path
    else none

-- The time after time.Sleep(max(0, time.Second-time.Since(t0))).
unfoldable pub after_sleep : ℕ → Round → ℕ
after_sleep t0 r =
    let now = t0 + r.took + r.printing + r.pausing in now + (second - (now - t0)) + r.oversleep

-- The rounds from a time on; `none` means that they did not suffice. `env i` is the i-th round.
unfoldable pub ping_loop : ℕ → Bool → ℕ → (ℕ → Round) → ℕ → ℕ → Option PingEnd
unfolding judge after_sleep
ping_loop zero until_direct deadline env i t0 = none
ping_loop (suc rounds) until_direct deadline env i t0 =
    elim (judge until_direct deadline (t0 + (env i).took + (env i).printing) (env i).result) [
      | some e ↦ some e
      | none ↦ ping_loop rounds until_direct deadline env (i + 1) (after_sleep t0 (env i))
    ]

-- clientPingMode after the address argument. A round takes a second at least, so that there are no
-- more rounds than seconds, and one begun.
unfoldable pub client_ping_mode : Bool → ℕ → (ℕ → Round) → ℕ → Option PingEnd
unfolding ping_loop
client_ping_mode until_direct timeout env start =
    ping_loop (timeout / second + 2) until_direct (start + timeout) env 0 start
