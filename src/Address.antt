-- ===== src/Address.antt =====
-- tailcat.go and wire.go: the connection code (Addr) and its wire form. Texts are lists of byte codes; a
-- 64-bit region ID is its bit pattern. base64, CBOR and fmt.Sprint are parameters.
pub mod Wire
pub mod Parse
pub mod RoundTrip
pub mod Accepted
use tailcat_quic.Base.{
  ltb, leb, ◌==◌, if◌then◌else◌, ltb→lt, lt→ltb, leb→le, ==_iff, Bool-cases, Option-cases, Eq, beq,
  beq_refl, eq_of_beq, not_rejected, was_required, or-eq_false, not-eq_false, some-eq, length,
  get_elem?, get_or, take, drop, replicate, length-append, take-append-drop, length-take,
  length-drop, take-length_append, drop-length_append, take-of_length, drop-of_length,
  length-replicate, All, any, take-two_fields, take-drop-two_fields, drop-drop-two_fields,
  three_fields, drop-drop, four_fields, codes, bytes_eq, bytes_eq_sound, bytes_eq_self,
  bytes_eq_iff, slice, has_prefix, IsByte, lookup, insert, erase, lookup-insert, lookup-erase,
  length-erase-le, length-erase-present, length-insert-absent, ℕ, zero, suc, ◌+◌, ◌-◌, ◌*◌, ◌/◌,
  ◌%◌, ◌^◌, ◌≤◌, ◌<◌, max, min, compare, Ordering, ◌≡◌, refl, sym, ap, ap₂, ◌∙◌, subst, ◌≢◌, ◌↔◌,
  ◌⊎◌, inl, inr, Bool, true, false, not, ◌&&◌, ◌||◌, Option, none, some, List, [], ◌∷◌, ◌++◌, map,
  append_assoc, append-nil, arith, ℕ_discrete,
}

-- tailcfg.DERPNode, the fields that the code uses.
pub record DerpNode : Type 0 where
  pub name : List ℕ
  pub region_id : ℕ
  pub host_name : List ℕ
  pub cert_name : List ℕ
  pub ipv4 : List ℕ
  pub ipv6 : List ℕ
  pub stun_port : ℕ
  pub stun_only : Bool
  pub derp_port : ℕ
  pub insecure_for_tests : Bool

-- tailcfg.DERPRegion, the fields that the code uses.
pub record DerpRegion : Type 0 where
  pub region_id : ℕ
  pub region_code : List ℕ
  pub region_name : List ℕ
  pub nodes : List DerpNode

-- wireNode
pub record WireNode : Type 0 where
  pub name : List ℕ
  pub region_id : ℕ
  pub host_name : List ℕ
  pub cert_name : List ℕ
  pub ipv4 : List ℕ
  pub ipv6 : List ℕ
  pub stun_port : ℕ
  pub derp_port : ℕ
  pub insecure_for_tests : Bool

-- wireRegion; a CBOR null is `none`.
pub record WireRegion : Type 0 where
  pub region_id : ℕ
  pub region_code : List ℕ
  pub region_name : List ℕ
  pub nodes : List (Option WireNode)

-- wireConnInfo
pub record WireConnInfo (N D : Type 0) : Type 0 where
  pub version : ℕ
  pub server_public : N
  pub server_disco_public : Option D
  pub preshared_key : Option (List ℕ)
  pub region : List (Option WireRegion)
  pub region_id : ℕ

-- ConnInfo
pub record ConnInfo (N D : Type 0) : Type 0 where
  pub server_public : N
  pub server_disco_public : D
  pub preshared_key : List ℕ
  pub region : List DerpRegion
  pub region_id : ℕ

-- What the address code calls: CBOR and raw URL base64 of third parties, with the values that a
-- round trip keeps, and fmt.Sprint of a region ID.
pub record Encoding (N D : Type 0) : Type 0 where
  pub marshal : WireConnInfo N D → List ℕ
  pub unmarshal : List ℕ → Option (WireConnInfo N D)
  pub to_base64 : List ℕ → List ℕ
  pub from_base64 : List ℕ → Option (List ℕ)
  pub sprint : ℕ → List ℕ
  pub is_plain : WireConnInfo N D → Bool
  pub unmarshal-marshal :
      (w : WireConnInfo N D) → is_plain w ≡ true → unmarshal (marshal w) ≡ some w
  pub from_base64-to_base64 : (x : List ℕ) → from_base64 (to_base64 x) ≡ some x

abbrev pub h3_address_prefix : List ℕ
h3_address_prefix = codes "tch3"

abbrev pub h3_address_version : ℕ
h3_address_version = 1
