-- ===== src/NetAddr/Laws.antt =====
-- The NAT64 mapping, host prefixes, and when two keys share an address.
use tailcat_quic.Base.{
  length, take, length-take, All, IsByte, ℕ, zero, suc, ◌+◌, ◌*◌, ◌^◌, ◌<◌, ◌≡◌, refl, ap, ap₂, ◌↔◌,
  true, false, List, [], ◌∷◌, arith,
}
use tailcat_quic.Keys.{KeyCodec}
use tailcat_quic.NetAddr.{
  ula_bytes, Addr, v4, v6, addr_eq, contains, pfx_of, big_endian, h3_node_address, tc_addr_for_key,
  to_nat64, from_nat64, nat64_prefix,
}

-- IsIp: the number fits the family.
abbrev pub Fits : Addr → Type 0
Fits (v4 n) = n < 2 ^ 32
Fits (v6 n) = n < 2 ^ 128

-- What a client dials is what the exit node's handler is asked for, when the address is IPv4, or
-- IPv6 outside the NAT64 prefix.
pub from_nat64-to_nat64 :
    (a : Addr) → Fits a → contains nat64_prefix a ≡ false → from_nat64 (to_nat64 a) ≡ a
unfolding from_nat64 to_nat64 contains
from_nat64-to_nat64 (v4 n) f h = ground arith
from_nat64-to_nat64 (v6 n) f h = ground arith

pub addr_eq_iff : (a b : Addr) → (addr_eq a b ≡ true) ↔ (a ≡ b)
addr_eq_iff (v4 a) (v4 b) = ground arith
addr_eq_iff (v6 a) (v6 b) = ground arith
addr_eq_iff (v4 a) (v6 b) = ground arith
addr_eq_iff (v6 a) (v4 b) = ground arith

-- A host prefix contains its own address only.
pub contains-pfx_of : (a b : Addr) → (contains (pfx_of a) b ≡ true) ↔ (a ≡ b)
unfolding contains pfx_of
contains-pfx_of (v4 a) (v4 b) = ground arith
contains-pfx_of (v6 a) (v6 b) = ground arith
contains-pfx_of (v4 a) (v6 b) = ground arith
contains-pfx_of (v6 a) (v4 b) = ground arith

big_endian-injective :
    (a b : ℕ) (xs ys : List ℕ)
    → length xs ≡ length ys
    → All IsByte xs
    → All IsByte ys
    → big_endian a xs ≡ big_endian b ys
    → (a ≡ b) × (xs ≡ ys)
unfolding big_endian
big_endian-injective a b [] [] l p q h = (h, refl)
big_endian-injective a b [] (y ∷ ys) l p q h = absurd (omega arith)
big_endian-injective a b (x ∷ xs) [] l p q h = absurd (omega arith)
big_endian-injective a b (x ∷ xs) (y ∷ ys) l p q h =
    let (e, f) = big_endian-injective (a * 256 + x) (b * 256 + y) xs ys (omega arith) p.1 q.1 h in
    (omega arith, ap₂ ◌∷◌ (omega arith) f)

-- The address that the H3 backend derives from the raw key is the one of the IP path.
pub tc_addr_for_key-h3_node_address :
    {N : Type 0} (node : KeyCodec N) (k : N) → h3_node_address (node.raw k) ≡ tc_addr_for_key node k
unfolding h3_node_address tc_addr_for_key
tc_addr_for_key-h3_node_address node k = refl

All-take : (n : ℕ) (xs : List ℕ) → All IsByte xs → All IsByte (take n xs)
All-take zero xs h = tt
All-take (suc n) [] h = tt
All-take (suc n) (x ∷ xs) h = (h.0, All-take n xs h.1)

v6-injective : (a b : ℕ) → v6 a ≡ v6 b → a ≡ b
v6-injective a b h = ground arith

-- Two node keys have one tailcat address exactly if their first ten bytes agree.
pub tc_addr_for_key_iff :
    {N : Type 0} (node : KeyCodec N) (j k : N)
    → (tc_addr_for_key node j ≡ tc_addr_for_key node k)
      ↔ (take 10 (node.raw j) ≡ take 10 (node.raw k))
unfolding tc_addr_for_key
tc_addr_for_key_iff node j k = (
  λ h.
      (big_endian-injective (big_endian 0 ula_bytes) (big_endian 0 ula_bytes) (take 10 (node.raw j))
        (take 10 (node.raw k))
        (omega (
          arith,
          length-take 10 (node.raw j),
          length-take 10 (node.raw k),
          node.length-raw j,
          node.length-raw k,
        ))
        (All-take 10 (node.raw j) (node.raw-IsByte j))
        (All-take 10 (node.raw k) (node.raw-IsByte k)) (unfold big_endian in v6-injective _ _ h)).1,
  λ e. ap (λ t. v6 (big_endian 0 (0xfd ∷ 0x7a ∷ 0x11 ∷ 0x5c ∷ 0xa1 ∷ 0xe0 ∷ t))) e,
)
