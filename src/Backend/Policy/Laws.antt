-- ===== src/Backend/Policy/Laws.antt =====
-- The peer policy admits exactly the admitted clients, each from its own address.
use tailcat_quic.Base.{
  if◌then◌else◌, Bool-cases, Option-cases, lookup, ◌≡◌, refl, sym, ap, ◌∙◌, ◌≢◌, ◌↔◌, inl, inr,
  true, false, none, some, List, [], ◌∷◌, arith,
}
use tailcat_quic.Keys.{KeyCodec}
use tailcat_quic.NetAddr.{Addr, addr_eq, pfx_of, tc_addr_for_key}
use tailcat_quic.NetAddr.Laws.{addr_eq_iff, contains-pfx_of}
use tailcat_quic.Backend.{Node, Backend}
use tailcat_quic.Backend.Retire.{lookup_key}
use tailcat_quic.Backend.Policy.{peer_config, is_foreign, source_allowed, find_client, peer_by_ip}
use tailcat_quic.Backend.Admission.Clients.{Inv}

module _ {N D : Type 0} (node : KeyCodec N) where
  client_config :
      (b : Backend N D) (k : N) (n : Node N D)
      → Inv node b
      → node.is_zero b.server_pub ≡ true
      → lookup_key node k b.clients ≡ some n
      → peer_config node k b ≡ some (pfx_of (tc_addr_for_key node k) ∷ [])
  unfolding peer_config
  client_config b k n v z e = rw (z, e) (ap some (v.clients_ok k n e).own_source)

  no_config :
      (b : Backend N D) (k : N)
      → node.is_zero b.server_pub ≡ true
      → lookup_key node k b.clients ≡ none
      → peer_config node k b ≡ none
  unfolding peer_config
  no_config b k z e = rw (z, e) refl

  -- On a server, a packet is accepted from a peer exactly if the peer is an admitted client other
  -- than the server itself and the source is the peer's own tailcat address: no client can use the
  -- address of another.
  pub source_allowed_iff :
      (here peer : N) (source : Addr) (b : Backend N D)
      → Inv node b
      → node.is_zero b.server_pub ≡ true
      → (source_allowed node here peer source b ≡ true) ↔ (
          (is_foreign node here peer b ≡ false)
          × (lookup_key node peer b.clients ≢ none)
          × (tc_addr_for_key node peer ≡ source))
  unfolding source_allowed
  source_allowed_iff here peer source b v z = elim (Bool-cases (is_foreign node here peer b)) [
    | inl f ↦ rw f (λ h. ground arith, λ h. ground arith)
    | inr f ↦ elim (Option-cases (lookup_key node peer b.clients)) [
      | inl e ↦ rw (f, no_config b peer z e) (λ h. ground arith, λ h. absurd (h.1 e))
      | inr (n, e) ↦
          rw (f, client_config b peer n v z e)
            (ground (arith, e, contains-pfx_of (tc_addr_for_key node peer) source))
    ]
  ]

  find_client-some :
      (dst : Addr) (m : List (N × Node N D)) (k : N)
      → find_client node dst m ≡ some k
      → (lookup_key node k m ≢ none) × (tc_addr_for_key node k ≡ dst)
  unfolding find_client lookup
  find_client-some dst [] k h = absurd (ground arith)
  find_client-some dst ((j, n) ∷ m) k h = ground (
    arith,
    node.eq.beq_iff j k,
    addr_eq_iff (tc_addr_for_key node j) dst,
    find_client-some dst m k,
  )

  find_client-none :
      (dst : Addr) (m : List (N × Node N D)) (k : N)
      → find_client node dst m ≡ none
      → lookup_key node k m ≢ none
      → tc_addr_for_key node k ≢ dst
  unfolding find_client lookup
  find_client-none dst [] k h l e = l refl
  find_client-none dst ((j, n) ∷ m) k h l e =
      elim (Bool-cases (addr_eq (tc_addr_for_key node j) dst)) [
        | inl hit ↦ absurd (cc (sym h ∙ ap (λ t. if t then some j else find_client node dst m) hit))
        | inr miss ↦ elim (Bool-cases (node.eq.beq j k)) [
          | inl same ↦ absurd (
              cc (
                sym miss
                ∙ (addr_eq_iff (tc_addr_for_key node j) dst).1
                    (ap (tc_addr_for_key node) ((node.eq.beq_iff j k).0 same) ∙ e)))
          | inr other ↦ find_client-none dst m k (ground arith) (λ f. l (rw other f)) e
        ]
      ]

  -- What a packet's destination finds on a server: a client at that address, or none is there.
  pub peer_by_ip_server :
      (dst : Addr) (b : Backend N D)
      → node.is_zero b.server_pub ≡ true
      → ((k : N)
          → peer_by_ip node dst b ≡ some k
          → (lookup_key node k b.clients ≢ none) × (tc_addr_for_key node k ≡ dst))
        × (peer_by_ip node dst b ≡ none
            → (k : N) → lookup_key node k b.clients ≢ none
            → tc_addr_for_key node k ≢ dst)
  unfolding peer_by_ip
  peer_by_ip_server dst b z =
      rw z
        (λ k h. find_client-some dst b.clients k h, λ h k l. find_client-none dst b.clients k h l)
