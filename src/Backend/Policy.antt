-- ===== src/Backend/Policy.antt =====
-- tailcat.go: the live peer policy that the engine consults, and the routing by address.
pub mod Laws
use tailcat_quic.Base.{
  if◌then◌else◌, any, lookup, Bool, true, false, not, ◌||◌, Option, none, some, List, [], ◌∷◌,
}
use tailcat_quic.Keys.{KeyCodec}
use tailcat_quic.NetAddr.{Addr, Prefix, addr_eq, contains, pfx_of, all_ipv6, tc_addr_for_key}
use tailcat_quic.Backend.{Node, Backend}

module _ {N D : Type 0} (node : KeyCodec N) where
  -- peerConfig
  pub peer_config : N → Backend N D → Option (List Prefix)
  peer_config k b =
      if not (node.is_zero b.server_pub)
      then (if node.eq.beq k b.server_pub
          then some (pfx_of (tc_addr_for_key node k) ∷ all_ipv6 ∷ [])
          else none)
      else elim (lookup ⦃e = node.eq⦄ k b.clients) [ none ↦ none | some n ↦ some n.allowed_ips ]

  -- `local != lb.pub || peer.IsZero() || peer == local`
  pub is_foreign : N → N → Backend N D → Bool
  is_foreign here peer b =
      not (node.eq.beq here b.public_key) || (node.is_zero peer || node.eq.beq peer here)

  -- The two functions given to SetPeerPolicyFuncs.
  pub peer_allowed : N → N → Backend N D → Bool
  unfolding is_foreign
  peer_allowed here peer b =
      if is_foreign here peer b
      then false
      else elim (peer_config peer b) [ none ↦ false | some _ ↦ true ]

  pub source_allowed : N → N → Addr → Backend N D → Bool
  unfolding is_foreign
  source_allowed here peer source b =
      if is_foreign here peer b then false else elim (peer_config peer b) [
        | none ↦ false
        | some prefixes ↦ any (λ p. contains p source) prefixes
      ]

  pub find_client : Addr → List (N × Node N D) → Option N
  find_client dst [] = none
  find_client dst ((k, n) ∷ rest) =
      if addr_eq (tc_addr_for_key node k) dst then some k else find_client dst rest

  -- peerByIP
  pub peer_by_ip : Addr → Backend N D → Option N
  unfolding find_client
  peer_by_ip dst b =
      if not (node.is_zero b.server_pub) then some b.server_pub else find_client dst b.clients

  pub node_has_addr : Node N D → Addr → Bool
  node_has_addr n ip = any (λ (p : Prefix). addr_eq p.addr ip) n.addresses

  pub find_node : Addr → List (Node N D) → Option (Node N D × Bool)
  find_node ip [] = none
  find_node ip (n ∷ rest) = if node_has_addr n ip then some (n, false) else find_node ip rest

  -- peerForIP: the node, and whether it is our own.
  pub peer_for_ip : Addr → Backend N D → Option (Node N D × Bool)
  unfolding find_node node_has_addr
  peer_for_ip ip b = elim b.nm [
    | none ↦ none
    | some m ↦
        if node_has_addr m.self_node ip then some (m.self_node, true) else find_node ip m.peers
  ]
