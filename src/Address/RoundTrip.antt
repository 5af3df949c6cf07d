-- ===== src/Address/RoundTrip.antt =====
-- A connection code is read back, up to what wireRegionOf drops and ParseAddr names anew.
use tailcat_quic.Base.{
  ltb, if◌then◌else◌, Bool-cases, length, ℕ, ◌+◌, ◌≤◌, ◌≡◌, refl, ap, ap₂, inl, inr, Bool, true,
  false, some, List, [], ◌∷◌, ◌++◌, map, arith,
}
use tailcat_quic.Keys.{KeyCodec}
use tailcat_quic.Secret.{is_zero}
use tailcat_quic.Address.{DerpNode, DerpRegion, WireNode, ConnInfo, Encoding, h3_address_prefix}
use tailcat_quic.Address.Wire.{wire_node_of, wire_nodes, elide_node, elided_region, wire_of, addr}
use tailcat_quic.Address.Parse.{
  derp_node, cons_node, not_null, derp_region, check_wire, unmarshal_wire, parse_wire, regions_of,
  restore_node, restore_region, restore_from, conn_info, parse_addr,
}

-- A relay node as its reader sees it: in the region's ID, and under its host name if it has one.
abbrev pub relay_name : List ℕ → List ℕ → List ℕ
relay_name name [] = name
relay_name name (c ∷ host) = c ∷ host

abbrev pub relay_node : ℕ → DerpNode → DerpNode
relay_node id n = record n {
  name = relay_name n.name n.host_name;
  region_id = id;
  stun_only = false;
}

-- The relay nodes of a region: all but the STUN-only ones.
abbrev pub relay_nodes : ℕ → List DerpNode → List DerpNode
relay_nodes id [] = []
relay_nodes id (n ∷ ns) =
    if n.stun_only then relay_nodes id ns else relay_node id n ∷ relay_nodes id ns

not_null-map :
    (f : WireNode → WireNode) (ns : List WireNode)
    → not_null (map (λ n. some (f n)) ns) ≡ some (map f ns)
unfolding not_null
not_null-map f [] = refl
not_null-map f (n ∷ ns) = ap (cons_node (f n)) (not_null-map f ns)

module _ {N D : Type 0} (node : KeyCodec N) (disco : KeyCodec D) (coding : Encoding N D) where
  -- The regions as their reader sees them, numbered from 1 on.
  abbrev pub relay_region : ℕ → DerpRegion → DerpRegion
  relay_region ri r = record {
    region_id = ri + 1;
    region_code = coding.sprint (ri + 1);
    region_name = [];
    nodes = relay_nodes (ri + 1) r.nodes;
  }

  abbrev pub relay_regions : ℕ → List DerpRegion → List DerpRegion
  relay_regions ri [] = []
  relay_regions ri (r ∷ rs) = relay_region ri r ∷ relay_regions (ri + 1) rs

  name_back :
      (id : ℕ) (name host : List ℕ) (i : ℕ) (cert a b : List ℕ) (p q : ℕ) (t so : Bool)
      → restore_node node disco coding id (
          derp_node (
            elide_node (
              wire_node_of (record {
                name = name;
                region_id = i;
                host_name = host;
                cert_name = cert;
                ipv4 = a;
                ipv6 = b;
                stun_port = p;
                stun_only = so;
                derp_port = q;
                insecure_for_tests = t;
              }))))
        ≡ relay_node id (record {
          name = name;
          region_id = i;
          host_name = host;
          cert_name = cert;
          ipv4 = a;
          ipv6 = b;
          stun_port = p;
          stun_only = so;
          derp_port = q;
          insecure_for_tests = t;
        })
  unfolding restore_node derp_node elide_node wire_node_of
  name_back id [] [] i cert a b p q t so = refl
  name_back id (x ∷ name) [] i cert a b p q t so = refl
  name_back id name (c ∷ host) i cert a b p q t so = refl

  node_back :
      (id : ℕ) (n : DerpNode)
      → restore_node node disco coding id (derp_node (elide_node (wire_node_of n)))
        ≡ relay_node id n
  node_back id n =
      name_back id n.name n.host_name n.region_id n.cert_name n.ipv4 n.ipv6 n.stun_port n.derp_port
        n.insecure_for_tests n.stun_only

  nodes_back :
      (id : ℕ) (ns : List DerpNode)
      → map (restore_node node disco coding id) (map derp_node (map elide_node (wire_nodes ns)))
        ≡ relay_nodes id ns
  unfolding wire_nodes
  nodes_back id [] = refl
  nodes_back id (n ∷ ns) = elim (Bool-cases n.stun_only) [
    | inl e ↦ rw e (nodes_back id ns)
    | inr e ↦ rw e (ap₂ ◌∷◌ (node_back id n) (nodes_back id ns))
  ]

  region_back :
      (ri : ℕ) (r : DerpRegion)
      → restore_region node disco coding ri
          (derp_region (elided_region r) (map elide_node (wire_nodes r.nodes)))
        ≡ relay_region ri r
  unfolding restore_region derp_region elided_region
  region_back ri r = rw (nodes_back (ri + 1) r.nodes) refl

  -- A region as derpRegion gives it back.
  abbrev sent : DerpRegion → DerpRegion
  sent r = derp_region (elided_region r) (map elide_node (wire_nodes r.nodes))

  elided-nodes :
      (r : DerpRegion)
      → not_null (elided_region r).nodes ≡ some (map elide_node (wire_nodes r.nodes))
  unfolding elided_region
  elided-nodes r = not_null-map elide_node (wire_nodes r.nodes)

  regions_of-elided :
      (rs : List DerpRegion)
      → regions_of node disco coding (map (λ r. some (elided_region r)) rs) ≡ some (map sent rs)
  unfolding regions_of
  regions_of-elided [] = refl
  regions_of-elided (r ∷ rs) = rw (elided-nodes r, regions_of-elided rs) refl

  restore-sent :
      (ri : ℕ) (rs : List DerpRegion)
      → restore_from node disco coding ri (map sent rs) ≡ relay_regions ri rs
  unfolding restore_from
  restore-sent ri [] = refl
  restore-sent ri (r ∷ rs) = ap₂ ◌∷◌ (region_back ri r) (restore-sent (ri + 1) rs)

  module _ (ci : ConnInfo N D) (server_set : node.is_zero ci.server_public ≡ false)
      (disco_set : disco.is_zero ci.server_disco_public ≡ false)
      (secret_set : is_zero ci.preshared_key ≡ false) where
    check-wire_of :
        check_wire node disco coding (wire_of disco coding ci) ≡ some (wire_of disco coding ci)
    unfolding check_wire wire_of
    check-wire_of = rw (disco_set, secret_set, server_set, disco_set, secret_set) refl

    conn_info-wire_of :
        conn_info node disco coding (wire_of disco coding ci)
        ≡ some (record ci { region = relay_regions 0 ci.region })
    unfolding conn_info wire_of
    conn_info-wire_of =
        rw (disco_set, secret_set, regions_of-elided ci.region) (rw (restore-sent 0 ci.region) refl)

    -- A connection code with its three secrets set, within the length limit and of values that CBOR
    -- keeps, is read back: the same keys and region ID, and each embedded region under its position
    -- from 1 on, with its nodes but the STUN-only ones, each in that region and named by its host.
    pub parse_addr-addr :
        coding.is_plain (wire_of disco coding ci) ≡ true
        → length (addr disco coding ci) ≤ 65536
        → parse_addr node disco coding (addr disco coding ci)
          ≡ some (record ci { region = relay_regions 0 ci.region })
    unfolding parse_addr parse_wire addr unmarshal_wire
    parse_addr-addr plain short =
        let x = coding.marshal (wire_of disco coding ci) in
        let fits : ltb 65536 (length (h3_address_prefix ++ coding.to_base64 x)) ≡ false =
          ground (arith, short) in
        rw
          (
            fits,
            coding.from_base64-to_base64 x,
            coding.unmarshal-marshal (wire_of disco coding ci) plain,
            check-wire_of,
          )
          conn_info-wire_of
