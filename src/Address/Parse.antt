-- ===== src/Address/Parse.antt =====
-- parseWire, ParseAddr and derpRegion.
use tailcat_quic.Base.{
  ltb, ◌==◌, if◌then◌else◌, length, drop, replicate, has_prefix, ℕ, ◌+◌, Bool, true, false, not,
  ◌||◌, Option, none, some, List, [], ◌∷◌, map,
}
use tailcat_quic.Keys.{KeyCodec}
use tailcat_quic.Secret.{is_zero}
use tailcat_quic.Address.{
  DerpNode, DerpRegion, WireNode, WireRegion, WireConnInfo, ConnInfo, Encoding, h3_address_prefix,
  h3_address_version,
}

unfoldable pub derp_node : WireNode → DerpNode
derp_node n = record {
  name = n.name;
  region_id = n.region_id;
  host_name = n.host_name;
  cert_name = n.cert_name;
  ipv4 = n.ipv4;
  ipv6 = n.ipv6;
  stun_port = n.stun_port;
  stun_only = false;
  derp_port = n.derp_port;
  insecure_for_tests = n.insecure_for_tests;
}

abbrev pub cons_node : WireNode → Option (List WireNode) → Option (List WireNode)
cons_node x none = none
cons_node x (some xs) = some (x ∷ xs)

-- All nodes of a list of pointers, or `none` if one is nil.
unfoldable pub not_null : List (Option WireNode) → Option (List WireNode)
not_null [] = some []
not_null (none ∷ xs) = none
not_null (some x ∷ xs) = cons_node x (not_null xs)

-- derpRegion, for a region without null nodes.
unfoldable pub derp_region : WireRegion → List WireNode → DerpRegion
unfolding derp_node
derp_region w ns = record {
  region_id = w.region_id;
  region_code = w.region_code;
  region_name = w.region_name;
  nodes = map derp_node ns;
}

module _ {N D : Type 0} (node : KeyCodec N) (disco : KeyCodec D) (coding : Encoding N D) where
  -- The checks of parseWire on a decoded value.
  unfoldable pub check_wire : WireConnInfo N D → Option (WireConnInfo N D)
  check_wire w =
      if not (w.version == h3_address_version)
      then none
      else if node.is_zero w.server_public || lacks_disco w.server_disco_public
      then none
      else if lacks_secret w.preshared_key
      then none
      else some w
    where
      lacks_disco : Option D → Bool
      lacks_disco none = true
      lacks_disco (some d) = disco.is_zero d

      lacks_secret : Option (List ℕ) → Bool
      lacks_secret none = true
      lacks_secret (some p) = is_zero p

  -- parseWire after the prefix.
  unfoldable pub unmarshal_wire : Option (List ℕ) → Option (WireConnInfo N D)
  unfolding check_wire
  unmarshal_wire none = none
  unmarshal_wire (some x) = checked (coding.unmarshal x)
    where
      checked : Option (WireConnInfo N D) → Option (WireConnInfo N D)
      checked none = none
      checked (some w) = check_wire w

  -- parseWire
  unfoldable pub parse_wire : List ℕ → Option (WireConnInfo N D)
  unfolding unmarshal_wire
  parse_wire a =
      if ltb 65536 (length a)
      then none
      else if has_prefix a h3_address_prefix
      then unmarshal_wire (coding.from_base64 (drop 4 a))
      else none

  -- The first loop of ParseAddr: null regions and null nodes are errors.
  unfoldable pub regions_of : List (Option WireRegion) → Option (List DerpRegion)
  unfolding not_null derp_region
  regions_of [] = some []
  regions_of (none ∷ ws) = none
  regions_of (some w ∷ ws) = cons (not_null w.nodes) (regions_of ws)
    where
      cons : Option (List WireNode) → Option (List DerpRegion) → Option (List DerpRegion)
      cons (some ns) (some rs) = some (derp_region w ns ∷ rs)
      cons _ _ = none

  abbrev or_text : List ℕ → List ℕ → List ℕ
  or_text [] d = d
  or_text (c ∷ t) d = c ∷ t

  -- The second loop of ParseAddr, for one node of a region.
  unfoldable pub restore_node : ℕ → DerpNode → DerpNode
  restore_node region n = record n {
    name = or_text n.name n.host_name;
    region_id = if n.region_id == 0 then region else n.region_id;
  }

  -- The second loop of ParseAddr, for the region at an index.
  unfoldable pub restore_region : ℕ → DerpRegion → DerpRegion
  unfolding restore_node
  restore_region ri r =
      let id = if r.region_id == 0 then ri + 1 else r.region_id in
      record {
        region_id = id;
        region_code = or_text r.region_code (coding.sprint id);
        region_name = r.region_name;
        nodes = map (restore_node id) r.nodes;
      }

  unfoldable pub restore_from : ℕ → List DerpRegion → List DerpRegion
  unfolding restore_region
  restore_from ri [] = []
  restore_from ri (r ∷ rs) = restore_region ri r ∷ restore_from (ri + 1) rs

  abbrev value_or {ℓ} : {A : Type ℓ} → Option A → A → A
  value_or none d = d
  value_or (some a) d = a

  -- ParseAddr from the wire form, with the key that is the zero of Go's type.
  unfoldable pub conn_info : WireConnInfo N D → Option (ConnInfo N D)
  unfolding restore_from regions_of
  conn_info w = filled (regions_of w.region)
    where
      filled : Option (List DerpRegion) → Option (ConnInfo N D)
      filled none = none
      filled (some rs) = some (record {
        server_public = w.server_public;
        server_disco_public = value_or w.server_disco_public (disco.from_raw (replicate 32 0));
        preshared_key = value_or w.preshared_key (replicate 32 0);
        region = restore_from 0 rs;
        region_id = w.region_id;
      })

  -- ParseAddr
  unfoldable pub parse_addr : List ℕ → Option (ConnInfo N D)
  unfolding parse_wire conn_info
  parse_addr a = after (parse_wire a)
    where
      after : Option (WireConnInfo N D) → Option (ConnInfo N D)
      after none = none
      after (some w) = conn_info w
