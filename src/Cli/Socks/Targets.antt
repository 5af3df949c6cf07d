-- ===== src/Cli/Socks/Targets.antt =====
-- Where a SOCKS destination is dialled.
use tailcat_quic.Base.{Bool-cases, any, ◌≡◌, inl, inr, Bool, true, List, [], ◌∷◌}
use tailcat_quic.NetAddr.{Addr}
use tailcat_quic.Cli.Socks.{unmap, is_v4, prefer_v4}

-- Some address is IPv4.
abbrev pub has_v4 : List Addr → Bool
has_v4 ips = any (λ a. is_v4 (unmap a)) ips

-- An IPv4 address is chosen whenever the host name has one.
pub is_v4-prefer_v4 :
    (ip : Addr) (ips : List Addr) → has_v4 ips ≡ true → is_v4 (unmap (prefer_v4 ip ips)) ≡ true
unfolding prefer_v4
is_v4-prefer_v4 ip [] h = absurd (cc)
is_v4-prefer_v4 ip (a ∷ rest) h = elim (Bool-cases (is_v4 (unmap a))) [
  | inl y ↦ rw y y
  | inr n ↦ rw n (is_v4-prefer_v4 ip rest (rw n at h))
]
