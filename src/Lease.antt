-- ===== src/Lease.antt =====
-- h3_clients.go: the lease of an admitted client, one packed atomic word.
-- Times are nanoseconds since the epoch; session states are the numbers of
-- wgengine.PeerWireGuardState, a third-party type, of which the code names two.
pub mod Packing
pub mod Race
use tailcat_quic.Base.{
  ltb, leb, ◌==◌, if◌then◌else◌, ltb→lt, lt→ltb, leb→le, ==_iff, Bool-cases, Option-cases, Eq, beq,
  beq_refl, eq_of_beq, not_rejected, was_required, or-eq_false, not-eq_false, some-eq, length,
  get_elem?, get_or, take, drop, replicate, length-append, take-append-drop, length-take,
  length-drop, take-length_append, drop-length_append, take-of_length, drop-of_length,
  length-replicate, All, any, take-two_fields, take-drop-two_fields, drop-drop-two_fields,
  three_fields, drop-drop, four_fields, codes, bytes_eq, bytes_eq_sound, bytes_eq_self,
  bytes_eq_iff, slice, has_prefix, IsByte, lookup, insert, erase, lookup-insert, lookup-erase,
  length-erase-le, length-erase-present, length-insert-absent, ℕ, zero, suc, ◌+◌, ◌-◌, ◌*◌, ◌/◌,
  ◌%◌, ◌^◌, ◌≤◌, ◌<◌, max, min, compare, Ordering, ◌≡◌, refl, sym, ap, ap₂, ◌∙◌, subst, ◌≢◌, ◌↔◌,
  ◌⊎◌, inl, inr, Bool, true, false, not, ◌&&◌, ◌||◌, Option, none, some, List, [], ◌∷◌, ◌++◌, map,
  append_assoc, append-nil, arith, ℕ_discrete,
}

abbrev pub second : ℕ
second = 1000000000

-- time.Minute
abbrev pub h3_client_grace : ℕ
h3_client_grace = 60 * second

-- ^uint64(0)
abbrev pub h3_lease_retired : ℕ
h3_lease_retired = 18446744073709551615

-- The two session states that the code names.
pub record SessionStates : Type 0 where
  pub established : ℕ
  pub handshake : ℕ

-- uint64(now.Unix())<<3 | uint64(state)&7: the low three bits of the shifted time are 0.
unfoldable pub pack : ℕ → ℕ → ℕ
pack state now = (now / second * 8) % 18446744073709551616 + state % 8

unfoldable pub lease_state : ℕ → ℕ
lease_state v = v % 8

-- time.Unix(int64(v>>3), 0)
unfoldable pub changed_at : ℕ → ℕ
changed_at v = v / 8 * second

module _ (states : SessionStates) where
  -- The guard that `reclaimable` and `claimRetirement` share. A difference below 0 is below the
  -- grace period, and so is the truncated 0.
  unfoldable pub is_kept : ℕ → ℕ → Bool
  unfolding lease_state changed_at
  is_kept v now =
      v == h3_lease_retired
      || (lease_state v == states.established || ltb (now - changed_at v) h3_client_grace)

  unfoldable pub reclaimable : ℕ → ℕ → ℕ × Bool
  reclaimable v now = if is_kept v now then (changed_at v, false) else (changed_at v, true)

  -- With no other access between the load and the swap, the swap succeeds. `Race` has the rest.
  unfoldable pub update : ℕ → ℕ → ℕ → ℕ × Bool
  update v state now = if v == h3_lease_retired then (v, false) else (pack state now, true)

  unfoldable pub claim_retirement : ℕ → ℕ → ℕ × Bool
  claim_retirement v now = if is_kept v now then (v, false) else (h3_lease_retired, true)

  -- A zero word, updated.
  unfoldable pub new_h3_client_lease : ℕ → ℕ
  new_h3_client_lease now = (update 0 states.handshake now).0
