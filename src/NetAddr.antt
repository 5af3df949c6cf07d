-- ===== src/NetAddr.antt =====
-- IP addresses as net/netip has them, the tailcat address of a node key, and the NAT64 mapping:
-- tcAddrForKey, pfxOf, nat64Prefix, DialTCP, DialUDP and GetTCPHandlerForFlow of tailcat.go, and
-- h3NodeAddress of h3_streams.go. Addresses with a zone are left out.
pub mod Laws
use tailcat_quic.Base.{
  ltb, leb, ◌==◌, if◌then◌else◌, ltb→lt, lt→ltb, leb→le, ==_iff, Bool-cases, Option-cases, Eq, beq,
  beq_refl, eq_of_beq, not_rejected, was_required, or-eq_false, not-eq_false, some-eq, length,
  get_elem?, get_or, take, drop, replicate, length-append, take-append-drop, length-take,
  length-drop, take-length_append, drop-length_append, take-of_length, drop-of_length,
  length-replicate, All, any, take-two_fields, take-drop-two_fields, drop-drop-two_fields,
  three_fields, drop-drop, four_fields, codes, bytes_eq, bytes_eq_sound, bytes_eq_self,
  bytes_eq_iff, slice, has_prefix, IsByte, lookup, insert, erase, lookup-insert, lookup-erase,
  length-erase-le, length-erase-present, length-insert-absent, ℕ, zero, suc, ◌+◌, ◌-◌, ◌*◌, ◌/◌,
  ◌%◌, ◌^◌, ◌≤◌, ◌<◌, max, min, compare, Ordering, ◌≡◌, refl, sym, ap, ap₂, ◌∙◌, subst, ◌≢◌, ◌↔◌,
  ◌⊎◌, inl, inr, Bool, true, false, not, ◌&&◌, ◌||◌, Option, none, some, List, [], ◌∷◌, ◌++◌, map,
  append_assoc, append-nil, arith, ℕ_discrete,
}
use tailcat_quic.Keys.{KeyCodec}

pub data Addr : Type 0 where
  v4 : ℕ → Addr
  v6 : ℕ → Addr

pub record AddrPort : Type 0 where
  pub addr : Addr
  pub port : ℕ

pub record Prefix : Type 0 where
  pub addr : Addr
  pub bits : ℕ

abbrev pub addr_eq : Addr → Addr → Bool
addr_eq (v4 a) (v4 b) = a == b
addr_eq (v6 a) (v6 b) = a == b
addr_eq _ _ = false

-- netip.Prefix.Contains: the same family, and the same leading bits.
unfoldable pub contains : Prefix → Addr → Bool
contains p a = same_bits p.addr p.bits a
  where
    same_bits : Addr → ℕ → Addr → Bool
    same_bits (v4 x) n (v4 y) = x / 2 ^ (32 - n) == y / 2 ^ (32 - n)
    same_bits (v6 x) n (v6 y) = x / 2 ^ (128 - n) == y / 2 ^ (128 - n)
    same_bits _ n _ = false

abbrev pub bit_len : Addr → ℕ
bit_len (v4 _) = 32
bit_len (v6 _) = 128

unfoldable pub pfx_of : Addr → Prefix
pfx_of a = record { addr = a; bits = bit_len a }

-- ::/0
abbrev pub all_ipv6 : Prefix
all_ipv6 = record { addr = v6 0; bits = 0 }

-- The number of a big-endian byte string.
unfoldable pub big_endian : ℕ → List ℕ → ℕ
big_endian acc [] = acc
big_endian acc (b ∷ bs) = big_endian (acc * 256 + b) bs

abbrev pub ula_bytes : List ℕ
ula_bytes = 0xfd ∷ 0x7a ∷ 0x11 ∷ 0x5c ∷ 0xa1 ∷ 0xe0 ∷ []

-- h3NodeAddress: netip.AddrFrom16 of the ULA bytes and the first ten bytes of the key.
pub h3_node_address : List ℕ → Addr
h3_node_address k = v6 (big_endian 0 (ula_bytes ++ take 10 k))

unfoldable pub tc_addr_for_key : {N : Type 0} → KeyCodec N → N → Addr
tc_addr_for_key node k =
    let r = node.raw k in v6 (big_endian 0 (0xfd ∷ 0x7a ∷ 0x11 ∷ 0x5c ∷ 0xa1 ∷ 0xe0 ∷ take 10 r))

-- 64:ff9b::/96
abbrev pub nat64_prefix : Prefix
nat64_prefix = record { addr = v6 (0x64ff9b * 2 ^ 96); bits = 96 }

-- The client's mapping: copy(a[12:], a4[:]) into the prefix, whose last four bytes are 0.
unfoldable pub to_nat64 : Addr → Addr
to_nat64 (v4 n) = v6 (0x64ff9b * 2 ^ 96 + n)
to_nat64 (v6 n) = v6 n

-- The server's inverse: the last four bytes of an address in the prefix.
unfoldable pub from_nat64 : Addr → Addr
from_nat64 a = if contains nat64_prefix a then last_four a else a
  where
    last_four : Addr → Addr
    last_four (v4 n) = v4 n
    last_four (v6 n) = v4 (n % 2 ^ 32)
