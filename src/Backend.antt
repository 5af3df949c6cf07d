-- ===== src/Backend.antt =====
-- tailcat.go: the state of locoBackend that admission and peer policy share. The order of a map's
-- list stands for the order in which Go iterates over the map. A node's Name, StableID and User are
-- labels made of its ID, and are left out; the DERP region is that of the one-region DERP map.
pub mod Retire
pub mod Admission
pub mod Policy
pub mod Bootstrap
use tailcat_quic.Base.{
  ltb, leb, ◌==◌, if◌then◌else◌, ltb→lt, lt→ltb, leb→le, ==_iff, Bool-cases, Option-cases, Eq, beq,
  beq_refl, eq_of_beq, not_rejected, was_required, or-eq_false, not-eq_false, some-eq, length,
  get_elem?, get_or, take, drop, replicate, length-append, take-append-drop, length-take,
  length-drop, take-length_append, drop-length_append, take-of_length, drop-of_length,
  length-replicate, All, any, take-two_fields, take-drop-two_fields, drop-drop-two_fields,
  three_fields, drop-drop, four_fields, codes, bytes_eq, bytes_eq_sound, bytes_eq_self,
  bytes_eq_iff, slice, has_prefix, IsByte, lookup, insert, erase, lookup-insert, lookup-erase,
  length-erase-le, length-erase-present, length-insert-absent, ℕ, zero, suc, ◌+◌, ◌-◌, ◌*◌, ◌/◌,
  ◌%◌, ◌^◌, ◌≤◌, ◌<◌, max, min, compare, Ordering, ◌≡◌, refl, sym, ap, ap₂, ◌∙◌, subst, ◌≢◌, ◌↔◌,
  ◌⊎◌, inl, inr, Bool, true, false, not, ◌&&◌, ◌||◌, Option, none, some, List, [], ◌∷◌, ◌++◌, map,
  append_assoc, append-nil, arith, ℕ_discrete,
}
use tailcat_quic.NetAddr.{Addr, AddrPort, Prefix}

-- tailcfg.Node
pub record Node (N D : Type 0) : Type 0 where
  pub id : ℕ
  pub key : N
  pub disco_key : D
  pub addresses : List Prefix
  pub allowed_ips : List Prefix
  pub home_derp : ℕ

-- netmap.NetworkMap
pub record NetworkMap (N D : Type 0) : Type 0 where
  pub self_node : Node N D
  pub peers : List (Node N D)

-- The part of the state that `mu`, `admissionMu` and `clientLeases` guard, and the identity.
pub record Backend (N D : Type 0) : Type 0 where
  pub public_key : N
  pub disco_public : D
  pub own_addr : Addr
  pub server_pub : N
  pub derp_region : ℕ
  pub allowed_clients : Option (List (N × Bool))
  pub clients : List (N × Node N D)
  pub client_leases : List (N × ℕ)
  pub next_client_id : ℕ
  pub nm : Option (NetworkMap N D)
  pub eps : List AddrPort

-- The calls that onMeow makes into the engine, magicsock and netstack.
pub data Effect (N D : Type 0) : Type 0 where
  reset_device_peer : N → Effect N D
  set_network_map : NetworkMap N D → Effect N D
  update_netstack_ips : NetworkMap N D → Effect N D
  advertise_endpoints : Effect N D
