-- ===== src/Backend/Admission/Clients.antt =====
-- The invariant of the server's clients, kept by callbacks, by a removal and by an admission.
use tailcat_quic.Base.{
  if◌then◌else◌, Option-cases, length, lookup-insert, lookup-erase, length-erase-le,
  length-insert-absent, ℕ, ◌+◌, ◌≤◌, ◌<◌, max, ◌≡◌, refl, sym, ap, ◌∙◌, ◌↔◌, ◌⊎◌, inl, inr, none,
  some, List, [], ◌∷◌, arith,
}
use tailcat_quic.Keys.{KeyCodec}
use tailcat_quic.H3.{h3_max_clients}
use tailcat_quic.Lease.{SessionStates, new_h3_client_lease}
use tailcat_quic.NetAddr.{pfx_of, tc_addr_for_key}
use tailcat_quic.Backend.{Node, Backend}
use tailcat_quic.Backend.Retire.{SessionEvent, lookup_key}
use tailcat_quic.Backend.Retire.Oldest.{session_events-none, late, without}
use tailcat_quic.Backend.Admission.{client_node, admit}

module _ {N D : Type 0} (node : KeyCodec N) where
  -- The node of an admitted key: its own single address, and an ID already given out.
  pub record IsClient (k : N) (next : ℕ) (n : Node N D) : Type 0 where
    pub own_key : n.key ≡ k
    pub own_source : n.allowed_ips ≡ pfx_of (tc_addr_for_key node k) ∷ []
    pub low : 2 ≤ n.id
    pub high : n.id ≤ next

  pub record Inv (b : Backend N D) : Type 0 where
    pub bounded : length b.clients ≤ h3_max_clients
    pub same_keys :
        (k : N) → (lookup_key node k b.clients ≡ none) ↔ (lookup_key node k b.client_leases ≡ none)
    pub clients_ok :
        (k : N) (n : Node N D)
        → lookup_key node k b.clients ≡ some n
        → IsClient k b.next_client_id n
    pub unique :
        (j k : N) (n m : Node N D)
        → lookup_key node j b.clients ≡ some n
        → lookup_key node k b.clients ≡ some m
        → n.id ≡ m.id
        → j ≡ k

  pub client_of_lease :
      (b : Backend N D) (k : N) (l : ℕ)
      → Inv b
      → lookup_key node k b.client_leases ≡ some l
      → (n : Node N D) × (lookup_key node k b.clients ≡ some n)
  client_of_lease b k l v h = elim (Option-cases (lookup_key node k b.clients)) [
    | inl e ↦ absurd (cc ((v.same_keys k).0 e))
    | inr found ↦ found
  ]

module _ {N D : Type 0} (node : KeyCodec N) (disco : KeyCodec D) (states : SessionStates) where
  pub late-Inv :
      (es : List (SessionEvent N)) (b : Backend N D) → Inv node b → Inv node (late node states es b)
  late-Inv es b v = record {
    bounded = v.bounded;
    same_keys = λ k.
        let (to, from) = session_events-none node states es k b.client_leases in
        (λ h. from ((v.same_keys k).0 h), λ h. (v.same_keys k).1 (to h));
    clients_ok = v.clients_ok;
    unique = v.unique;
  }

  lookup-without :
      (c k : N) (b : Backend N D) {n : Node N D}
      → lookup_key node k (without node states c b).clients ≡ some n
      → lookup_key node k b.clients ≡ some n
  lookup-without c k b h = ground (arith, lookup-erase ⦃e = node.eq⦄ c k b.clients)

  pub without-Inv : (c : N) (b : Backend N D) → Inv node b → Inv node (without node states c b)
  without-Inv c b v = record {
    bounded = omega (arith, v.bounded, length-erase-le ⦃e = node.eq⦄ c b.clients);
    same_keys = λ k. ground (
      arith,
      v.same_keys k,
      lookup-erase ⦃e = node.eq⦄ c k b.clients,
      lookup-erase ⦃e = node.eq⦄ c k b.client_leases,
    );
    clients_ok = λ k n h. v.clients_ok k n (lookup-without c k b h);
    unique = λ j k n m h i. v.unique j k n m (lookup-without c j b h) (lookup-without c k b i);
  }

  module _ (src : N) (d : D) (now : ℕ) (b : Backend N D) (v : Inv node b)
      (fresh : lookup_key node src b.clients ≡ none)
      (room : length b.clients < h3_max_clients) where
    admitted : Backend N D
    admitted = (admit node disco states src d now b).1

    lookup-admitted :
        (k : N)
        → lookup_key node k admitted.clients ≡ (
            if node.eq.beq src k
            then some
                (client_node node disco states (max (b.next_client_id + 1) 2) src d b.derp_region)
            else lookup_key node k b.clients)
    unfolding admitted admit
    lookup-admitted k = lookup-insert ⦃e = node.eq⦄ src k _ b.clients

    admitted-same_keys :
        (k : N)
        → (lookup_key node k admitted.clients ≡ none)
          ↔ (lookup_key node k admitted.client_leases ≡ none)
    unfolding admitted admit
    admitted-same_keys k = ground (
      arith,
      v.same_keys k,
      lookup-admitted k,
      lookup-insert ⦃e = node.eq⦄ src k (new_h3_client_lease states now) b.client_leases,
    )

    admitted-bounded : length admitted.clients ≤ h3_max_clients
    unfolding admitted admit
    admitted-bounded = omega (
      arith,
      length-insert-absent ⦃e = node.eq⦄ src
          (client_node node disco states (max (b.next_client_id + 1) 2) src d b.derp_region)
          b.clients fresh,
    )

    new_node : Node N D
    new_node = client_node node disco states (max (b.next_client_id + 1) 2) src d b.derp_region

    -- A client after the admission is the new one, or an old one.
    admitted-cases :
        (k : N) (n : Node N D)
        → lookup_key node k admitted.clients ≡ some n
        → ((src ≡ k) × (n ≡ new_node)) ⊎ (lookup_key node k b.clients ≡ some n)
    unfolding new_node
    admitted-cases k n h = ground (arith, lookup-admitted k, node.eq.beq_iff src k)

    new_node-id : (new_node.id ≡ max (b.next_client_id + 1) 2) × (b.next_client_id < new_node.id)
    unfolding new_node client_node
    new_node-id = omega arith

    next_id : admitted.next_client_id ≡ max (b.next_client_id + 1) 2
    unfolding admitted admit
    next_id = refl

    new-IsClient : IsClient node src admitted.next_client_id new_node
    unfolding new_node client_node
    new-IsClient = record {
      own_key = refl;
      own_source = refl;
      low = omega arith;
      high = omega (arith, next_id);
    }

    old-IsClient :
        (k : N) (n : Node N D)
        → IsClient node k b.next_client_id n
        → IsClient node k admitted.next_client_id n
    old-IsClient k n c = record {
      own_key = c.own_key;
      own_source = c.own_source;
      low = c.low;
      high = omega (arith, next_id, c.high);
    }

    admitted-clients_ok :
        (k : N) (n : Node N D)
        → lookup_key node k admitted.clients ≡ some n
        → IsClient node k admitted.next_client_id n
    admitted-clients_ok k n h = elim (admitted-cases k n h) [
      | inl (e, f) ↦ rw (← e, f) new-IsClient
      | inr g ↦ old-IsClient k n (v.clients_ok k n g)
    ]

    admitted_unique :
        (j k : N) (n m : Node N D)
        → lookup_key node j admitted.clients ≡ some n
        → lookup_key node k admitted.clients ≡ some m
        → n.id ≡ m.id
        → j ≡ k
    admitted_unique j k n m h i e = elim (admitted-cases j n h) [
      | inl (p, q) ↦ elim (admitted-cases k m i) [
        | inl (r, t) ↦ sym p ∙ r
        | inr g ↦
            absurd
              (omega (arith, new_node-id, ap (λ (x : Node N D). x.id) q, (v.clients_ok k m g).high))
      ]
      | inr g ↦ elim (admitted-cases k m i) [
        | inl (r, t) ↦
            absurd
              (omega (arith, new_node-id, ap (λ (x : Node N D). x.id) t, (v.clients_ok j n g).high))
        | inr g' ↦ v.unique j k n m g g' e
      ]
    ]

    pub admit-Inv : Inv node (admit node disco states src d now b).1
    unfolding admitted
    admit-Inv = record {
      bounded = admitted-bounded;
      same_keys = admitted-same_keys;
      clients_ok = admitted-clients_ok;
      unique = admitted_unique;
    }
