-- ===== src/Address/Wire.antt =====
-- ConnInfo.Addr and wireRegionOf.
use tailcat_quic.Base.{if◌then◌else◌, ℕ, Bool, true, false, none, some, List, [], ◌∷◌, ◌++◌, map}
use tailcat_quic.Keys.{KeyCodec}
use tailcat_quic.Secret.{is_zero}
use tailcat_quic.Address.{
  DerpNode, DerpRegion, WireNode, WireRegion, WireConnInfo, ConnInfo, Encoding, h3_address_prefix,
  h3_address_version,
}

-- The node part of wireRegionOf.
unfoldable pub wire_node_of : DerpNode → WireNode
wire_node_of n = record {
  name = n.name;
  region_id = n.region_id;
  host_name = n.host_name;
  cert_name = n.cert_name;
  ipv4 = n.ipv4;
  ipv6 = n.ipv6;
  stun_port = n.stun_port;
  derp_port = n.derp_port;
  insecure_for_tests = n.insecure_for_tests;
}

-- The loop of wireRegionOf: STUN-only nodes are dropped.
unfoldable pub wire_nodes : List DerpNode → List WireNode
unfolding wire_node_of
wire_nodes [] = []
wire_nodes (n ∷ ns) =
    let rest = wire_nodes ns in if n.stun_only then rest else wire_node_of n ∷ rest

-- The loop of Addr over the nodes: what the way back restores is left out.
unfoldable pub elide_node : WireNode → WireNode
elide_node n = record n { region_id = 0; name = if is_empty n.host_name then n.name else [] }
  where
    is_empty : List ℕ → Bool
    is_empty [] = true
    is_empty (c ∷ t) = false

-- wireRegionOf, with the fields that Addr removes.
unfoldable pub elided_region : DerpRegion → WireRegion
unfolding wire_nodes elide_node
elided_region r = record {
  region_id = 0;
  region_code = [];
  region_name = [];
  nodes = map (λ n. some (elide_node n)) (wire_nodes r.nodes);
}

module _ {N D : Type 0} (disco : KeyCodec D) (coding : Encoding N D) where
  -- The wire form that Addr encodes.
  unfoldable pub wire_of : ConnInfo N D → WireConnInfo N D
  unfolding elided_region
  wire_of ci = record {
    version = h3_address_version;
    server_public = ci.server_public;
    server_disco_public =
        if disco.is_zero ci.server_disco_public then none else some ci.server_disco_public;
    preshared_key = if is_zero ci.preshared_key then none else some ci.preshared_key;
    region = map (λ r. some (elided_region r)) ci.region;
    region_id = ci.region_id;
  }

  -- ConnInfo.Addr
  unfoldable pub addr : ConnInfo N D → List ℕ
  unfolding wire_of
  addr ci = h3_address_prefix ++ coding.to_base64 (coding.marshal (wire_of ci))
