-- ===== src/Idle/Timeout.antt =====
-- When an idle flow is closed: by a Close, or by a firing of its timer after its timeout.
use tailcat_quic.Base.{
  leb, if◌then◌else◌, ℕ, ◌+◌, ◌≡◌, refl, sym, ap, ◌∙◌, Bool, true, false, ◌||◌, some, List, [], ◌∷◌,
  arith,
}
use tailcat_quic.Idle.{
  IdlePacketConn, new_idle_packet_conn, check_idle, touch, after_io, close, Event, io, fire, shut,
  handle, handle_all,
}

-- The time of the last successful read or write, or else the given one.
abbrev last_activity_step : ℕ → Event → ℕ
last_activity_step t (io true now) = now
last_activity_step t _ = t

abbrev pub last_activity : ℕ → List Event → ℕ
last_activity t [] = t
last_activity t (e ∷ es) = last_activity (last_activity_step t e) es

-- Whether events close a flow whose last activity was at the given time: a Close does, and a firing of
-- the timer once the timeout after the last successful read or write has passed. Nothing else does.
abbrev pub ends : (timeout t : ℕ) → List Event → Bool
ends timeout t [] = false
ends timeout t (shut ∷ es) = true
ends timeout t (fire now ∷ es) = leb (t + timeout) now || ends timeout t es
ends timeout t (io true now ∷ es) = ends timeout now es
ends timeout t (io false now ∷ es) = ends timeout t es

-- The flow with its timeout and last activity.
record IsTimed (timeout t : ℕ) (c : IdlePacketConn) : Type 0 where
  same_timeout : c.timeout ≡ timeout
  once : c.closes ≡ (if c.closed then 1 else 0)
  armed : c.closed ≡ false → (c.timer ≡ some (t + timeout)) × (c.deadline ≡ t + timeout)

handle-IsTimed :
    (timeout t : ℕ) (e : Event) (c : IdlePacketConn)
    → IsTimed timeout t c
    → IsTimed timeout (last_activity_step t e) (handle e c)
unfolding handle after_io touch check_idle close
handle-IsTimed timeout t (io true now) c v = record {
  same_timeout = ground (arith, v.same_timeout);
  once = ground (arith, v.once);
  armed = λ h. (ground (arith, v.same_timeout, h), ground (arith, v.same_timeout, h));
}
handle-IsTimed timeout t (io false now) c v = v
handle-IsTimed timeout t (fire now) c v = record {
  same_timeout = ground (arith, v.same_timeout);
  once = ground (arith, v.once);
  armed = λ h. (ground (arith, v.armed, h), ground (arith, v.armed, h));
}
handle-IsTimed timeout t shut c v = record {
  same_timeout = ground (arith, v.same_timeout);
  once = ground (arith, v.once);
  armed = λ h. (ground (arith, h), ground (arith, h));
}

handle_all-IsTimed :
    (timeout t : ℕ) (es : List Event) (c : IdlePacketConn)
    → IsTimed timeout t c
    → IsTimed timeout (last_activity t es) (handle_all es c)
unfolding handle_all
handle_all-IsTimed timeout t [] c v = v
handle_all-IsTimed timeout t (e ∷ es) c v =
    handle_all-IsTimed timeout (last_activity_step t e) es (handle e c)
      (handle-IsTimed timeout t e c v)

new-IsTimed : (timeout now : ℕ) → IsTimed timeout now (new_idle_packet_conn timeout now)
unfolding new_idle_packet_conn
new-IsTimed timeout now = record { same_timeout = refl; once = refl; armed = λ h. (refl, refl) }

handle-closed : (e : Event) (c : IdlePacketConn) → c.closed ≡ true → (handle e c).closed ≡ true
unfolding handle after_io touch check_idle close
handle-closed (io true now) c h = ground (arith, h)
handle-closed (io false now) c h = h
handle-closed (fire now) c h = ground (arith, h)
handle-closed shut c h = ground (arith, h)

handle_all-closed :
    (es : List Event) (c : IdlePacketConn) → c.closed ≡ true → (handle_all es c).closed ≡ true
unfolding handle_all
handle_all-closed [] c h = h
handle_all-closed (e ∷ es) c h = handle_all-closed es (handle e c) (handle-closed e c h)

-- A firing closes an open flow exactly if its time has come.
check_idle-closed :
    (timeout t now : ℕ) (c : IdlePacketConn)
    → IsTimed timeout t c
    → c.closed ≡ false
    → (check_idle now c).closed ≡ leb (t + timeout) now
unfolding check_idle
check_idle-closed timeout t now c v h = ground (arith, h, (v.armed h).1)

handle_all-ends :
    (timeout t : ℕ) (es : List Event) (c : IdlePacketConn)
    → IsTimed timeout t c
    → c.closed ≡ false
    → (handle_all es c).closed ≡ ends timeout t es
unfolding handle_all handle touch after_io close
handle_all-ends timeout t [] c v h = h
handle_all-ends timeout t (shut ∷ es) c v h =
    handle_all-closed es (handle shut c) (ground (arith, h))
handle_all-ends timeout t (io true now ∷ es) c v h =
    handle_all-ends timeout now es (handle (io true now) c)
      (handle-IsTimed timeout t (io true now) c v) (ground (arith, h))
handle_all-ends timeout t (io false now ∷ es) c v h = handle_all-ends timeout t es c v h
handle_all-ends timeout t (fire now ∷ es) c v h =
    by_closed (check_idle now c).closed refl (check_idle-closed timeout t now c v h)
      (handle_all-ends timeout t es (check_idle now c) (handle-IsTimed timeout t (fire now) c v))
  where
    by_closed :
        (closed : Bool)
        → (check_idle now c).closed ≡ closed
        → (check_idle now c).closed ≡ leb (t + timeout) now
        → ((check_idle now c).closed ≡ false
            → (handle_all es (check_idle now c)).closed ≡ ends timeout t es)
        → (handle_all es (check_idle now c)).closed ≡ (leb (t + timeout) now || ends timeout t es)
    by_closed true e g later =
        handle_all-closed es (check_idle now c) e ∙ ap (λ b. b || ends timeout t es) (sym e ∙ g)
    by_closed false e g later = later e ∙ ap (λ b. b || ends timeout t es) (sym e ∙ g)

new-open : (timeout now : ℕ) → (new_idle_packet_conn timeout now).closed ≡ false
unfolding new_idle_packet_conn
new-open timeout now = refl

-- After any reads, writes, timer firings and Closes in any order, the flow is closed exactly if one of
-- them was a Close, or a firing that found the timeout passed since the last successful read or write
-- before it, or else since the creation; the inner connection has been closed once if the flow is
-- closed and never if it is open. While the flow is open its timer is set to the timeout after the last
-- successful read or write, and the next firing closes it exactly if that time has come.
pub handle_all_outcome :
    (timeout start : ℕ) (es : List Event) (now : ℕ)
    → let c = handle_all es (new_idle_packet_conn timeout start) in
      let expiry = last_activity start es + timeout in
      (c.closed ≡ ends timeout start es)
      × (c.closes ≡ (if c.closed then 1 else 0))
      × (c.closed ≡ false → (c.timer ≡ some expiry) × ((check_idle now c).closed ≡ leb expiry now))
handle_all_outcome timeout start es now =
    let v =
      handle_all-IsTimed timeout start es (new_idle_packet_conn timeout start)
        (new-IsTimed timeout start) in
    (
      handle_all-ends timeout start es (new_idle_packet_conn timeout start)
          (new-IsTimed timeout start) (new-open timeout start),
      v.once,
      λ h. (
        (v.armed h).0,
        check_idle-closed timeout (last_activity start es) now
            (handle_all es (new_idle_packet_conn timeout start)) v h,
      ),
    )
