-- ===== src/Lease/Packing.antt =====
-- The packed word gives back the session state and the second it was written in.
use tailcat_quic.Base.{ℕ, ◌+◌, ◌/◌, ◌%◌, ◌≤◌, ◌<◌, ◌≡◌, ◌≢◌, arith}
use tailcat_quic.Lease.{second, pack, lease_state, changed_at, h3_lease_retired}

-- Before the year 73 billion the word keeps the state, and the time rounded down to the second.
pub pack_fields :
    (state now : ℕ)
    → now / second < 2305843009213693952
    → (lease_state (pack state now) ≡ state % 8)
      × (changed_at (pack state now) ≤ now)
      × (now < changed_at (pack state now) + second)
unfolding pack lease_state changed_at
pack_fields state now h = omega arith

-- A state below 7 never packs to the tombstone.
pub pack-ne-retired : (state now : ℕ) → state < 7 → pack state now ≢ h3_lease_retired
unfolding pack
pack-ne-retired state now h = omega arith
