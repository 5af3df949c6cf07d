-- ===== src/Idle.antt =====
-- tailcat.go: idlePacketConn, which closes a UDP flow after a time without a successful read or write.
pub mod Timeout
use tailcat_quic.Base.{
  ltb, leb, ◌==◌, if◌then◌else◌, ltb→lt, lt→ltb, leb→le, ==_iff, Bool-cases, Option-cases, Eq, beq,
  beq_refl, eq_of_beq, not_rejected, was_required, or-eq_false, not-eq_false, some-eq, length,
  get_elem?, get_or, take, drop, replicate, length-append, take-append-drop, length-take,
  length-drop, take-length_append, drop-length_append, take-of_length, drop-of_length,
  length-replicate, All, any, take-two_fields, take-drop-two_fields, drop-drop-two_fields,
  three_fields, drop-drop, four_fields, codes, bytes_eq, bytes_eq_sound, bytes_eq_self,
  bytes_eq_iff, slice, has_prefix, IsByte, lookup, insert, erase, lookup-insert, lookup-erase,
  length-erase-le, length-erase-present, length-insert-absent, ℕ, zero, suc, ◌+◌, ◌-◌, ◌*◌, ◌/◌,
  ◌%◌, ◌^◌, ◌≤◌, ◌<◌, max, min, compare, Ordering, ◌≡◌, refl, sym, ap, ap₂, ◌∙◌, subst, ◌≢◌, ◌↔◌,
  ◌⊎◌, inl, inr, Bool, true, false, not, ◌&&◌, ◌||◌, Option, none, some, List, [], ◌∷◌, ◌++◌, map,
  append_assoc, append-nil, arith, ℕ_discrete,
}

-- idlePacketConn: `timer` is when the timer fires next, `closes` counts the calls of the inner Close.
pub record IdlePacketConn : Type 0 where
  pub timeout : ℕ
  pub timer : Option ℕ
  pub deadline : ℕ
  pub closed : Bool
  pub closes : ℕ

-- newIdlePacketConn, at the given time.
unfoldable pub new_idle_packet_conn : ℕ → ℕ → IdlePacketConn
new_idle_packet_conn timeout now = record {
  timeout = timeout;
  timer = some (now + timeout);
  deadline = now + timeout;
  closed = false;
  closes = 0;
}

-- checkIdle: `remaining > 0` is `now < deadline`.
unfoldable pub check_idle : ℕ → IdlePacketConn → IdlePacketConn
check_idle now c =
    if c.closed
    then c
    else if ltb now c.deadline
    then record c { timer = some (now + (c.deadline - now)) }
    else record c { timer = none; closed = true; closes = c.closes + 1 }

unfoldable pub touch : ℕ → IdlePacketConn → IdlePacketConn
touch now c =
    if c.closed then c else record c { deadline = now + c.timeout; timer = some (now + c.timeout) }

-- Read, ReadFrom, Write and WriteTo, with whether the inner call returned no error.
unfoldable pub after_io : Bool → ℕ → IdlePacketConn → IdlePacketConn
unfolding touch
after_io succeeded now c = if succeeded then touch now c else c

-- Close, with whether it reached the inner connection.
unfoldable pub close : IdlePacketConn → Bool × IdlePacketConn
close c =
    if c.closed
    then (false, c)
    else (true, record c { timer = none; closed = true; closes = c.closes + 1 })

-- What happens to a flow: a read or write, a firing of the timer, a Close.
pub data Event : Type 0 where
  io : Bool → ℕ → Event
  fire : ℕ → Event
  shut : Event

unfoldable pub handle : Event → IdlePacketConn → IdlePacketConn
unfolding after_io check_idle close
handle (io succeeded now) c = after_io succeeded now c
handle (fire now) c = check_idle now c
handle shut c = (close c).1

unfoldable pub handle_all : List Event → IdlePacketConn → IdlePacketConn
unfolding handle
handle_all [] c = c
handle_all (e ∷ es) c = handle_all es (handle e c)
