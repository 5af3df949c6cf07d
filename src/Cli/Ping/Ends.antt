-- ===== src/Cli/Ping/Ends.antt =====
-- The ping loop ends.
use tailcat_quic.Base.{
  Option-cases, ℕ, zero, suc, ◌+◌, ◌*◌, ◌/◌, ◌≤◌, ◌<◌, ◌≡◌, inl, inr, Bool, true, not, ◌||◌, Option,
  none, some, arith,
}
use tailcat_quic.Lease.{second}
use tailcat_quic.Cli.Ping.{
  PingResult, pong, deadline_exceeded, failed, Round, PingEnd, done, no_direct_path, ping_failed,
  is_empty, judge, after_sleep, ping_loop, client_ping_mode,
}

-- Only a relayed pong, half a second or more before the deadline, lets the loop go on.
judge-none :
    (u : Bool) (deadline now : ℕ) (r : PingResult)
    → judge u deadline now r ≡ none
    → now + second / 2 ≤ deadline
unfolding judge
judge-none u deadline now (pong e) h = ground arith
judge-none u deadline now deadline_exceeded h = absurd (cc)
judge-none u deadline now failed h = absurd (cc)

after_sleep-le : (t0 : ℕ) (r : Round) → t0 + second ≤ after_sleep t0 r
unfolding after_sleep
after_sleep-le t0 r = omega arith

-- A pong that the command was waiting for.
abbrev pub IsAwaited : Bool → PingResult → Type 0
IsAwaited u (pong endpoint) = (not (is_empty endpoint) || not u) ≡ true
IsAwaited u deadline_exceeded = ⊥
IsAwaited u failed = ⊥

judge_done :
    (u : Bool) (deadline now : ℕ) (r : PingResult)
    → judge u deadline now r ≡ some done
    → IsAwaited u r
unfolding judge
judge_done u deadline now (pong e) h = ground arith
judge_done u deadline now deadline_exceeded h = absurd (ground arith)
judge_done u deadline now failed h = absurd (cc)

module _ (u : Bool) (deadline : ℕ) (env : ℕ → Round) where
  -- An end, with the round of the awaited pong if it is a success.
  abbrev pub Ended : ℕ → ℕ → Option PingEnd → Type 0
  Ended i n none = ⊥
  Ended i n (some done) = (j : ℕ) × (j < i + n) × IsAwaited u (env j).result
  Ended i n (some no_direct_path) = Unit {0}
  Ended i n (some ping_failed) = Unit {0}

  Ended-mono : (i n : ℕ) (o : Option PingEnd) → Ended (i + 1) n o → Ended i (suc n) o
  Ended-mono i n none h = h
  Ended-mono i n (some done) h = (h.0, omega arith, h.2)
  Ended-mono i n (some no_direct_path) h = tt
  Ended-mono i n (some ping_failed) h = tt

  judged :
      (i n now : ℕ) (e : PingEnd)
      → judge u deadline now (env i).result ≡ some e
      → Ended i (suc n) (some e)
  judged i n now done h = (i, omega arith, judge_done u deadline now (env i).result h)
  judged i n now no_direct_path h = tt
  judged i n now ping_failed h = tt

  ping_loop_ends :
      (rounds i t0 : ℕ)
      → deadline < t0 + rounds * second
      → Ended i (suc rounds) (ping_loop (suc rounds) u deadline env i t0)
  unfolding ping_loop
  ping_loop_ends zero i t0 h =
      let now = t0 + (env i).took + (env i).printing in
      elim (Option-cases (judge u deadline now (env i).result)) [
        | inl e ↦ absurd (omega (arith, judge-none u deadline now (env i).result e))
        | inr (x, e) ↦ rw (e, ping_loop) (judged i 0 now x e)
      ]
  ping_loop_ends (suc rounds) i t0 h =
      let now = t0 + (env i).took + (env i).printing in
      elim (Option-cases (judge u deadline now (env i).result)) [
        | inl e ↦
            rw (e, ping_loop)
              (Ended-mono i (suc rounds) _ (
                ping_loop_ends rounds (i + 1) (after_sleep t0 (env i))
                  (omega (arith, after_sleep-le t0 (env i)))))
        | inr (x, e) ↦ rw (e, ping_loop) (judged i (suc rounds) now x e)
      ]

-- Whatever DiscoPing and the clock do, the command ends after at most two rounds more than the timeout
-- has seconds, and it succeeds only if one of these rounds had the awaited pong.
pub client_ping_mode_ends :
    (u : Bool) (timeout : ℕ) (env : ℕ → Round) (start : ℕ)
    → Ended u (start + timeout) env 0 (timeout / second + 2) (client_ping_mode u timeout env start)
unfolding client_ping_mode
client_ping_mode_ends u timeout env start =
    rw (two-is (timeout / second))
      (ping_loop_ends u (start + timeout) env (suc (timeout / second)) 0 start (omega arith))
  where
    two-is : (n : ℕ) → n + 2 ≡ suc (suc n)
    two-is n = omega arith
