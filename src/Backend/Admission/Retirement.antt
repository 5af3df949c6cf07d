-- ===== src/Backend/Admission/Retirement.antt =====
-- The retirement takes the client that has been free the longest, and refuses only if none is free.
use tailcat_quic.Base.{
  if◌then◌else◌, Bool-cases, some-eq, lookup-erase, ℕ, ◌≤◌, ◌≡◌, sym, ap, ◌∙◌, subst, inl, inr,
  true, false, Option, none, some, List, [], arith,
}
use tailcat_quic.Keys.{KeyCodec}
use tailcat_quic.Lease.{SessionStates, is_kept, changed_at}
use tailcat_quic.Backend.{Node, Backend}
use tailcat_quic.Backend.Retire.{
  session_events, SessionEvent, lookup_key, scan, retire_h3_client_locked,
}
use tailcat_quic.Backend.Retire.Oldest.{
  retire-of_scan, late, retire-cases, scan-free, scan-IsFree, IsFree,
}
use tailcat_quic.Backend.Admission.Clients.{Inv, client_of_lease}

module _ {N D : Type 0} (node : KeyCodec N) (states : SessionStates) (now : ℕ) where
  -- The oldest free client, at the time of the scan.
  pub record IsOldest (b : Backend N D) (k : N) : Type 0 where
    pub lease : ℕ
    pub held : lookup_key node k b.client_leases ≡ some lease
    pub free : is_kept states lease now ≡ false
    pub oldest :
        (p : N) (m : Node N D) (w : ℕ)
        → lookup_key node p b.clients ≡ some m
        → lookup_key node p b.client_leases ≡ some w
        → is_kept states w now ≡ false
        → changed_at lease ≤ changed_at w

  scan-IsOldest :
      (b : Backend N D) (k : N) (o : ℕ)
      → scan node states now b.client_leases b.clients none ≡ some (k, o)
      → IsOldest b k
  scan-IsOldest b k o e =
      let (v, h, f, c) =
        subst (IsFree node states now b.client_leases) e
          (scan-IsFree node states now b.client_leases b.clients none tt) in
      record {
        lease = v;
        held = h;
        free = f;
        oldest = λ p m w i j g.
            let (k', o', e', le) =
              scan-free node states now b.client_leases b.clients none p m w i j g in
            let same : some (k, o) ≡ some (k', o') = sym e ∙ e' in
            omega (arith, c, ap (λ (x : N × ℕ). x.1) (some-eq same));
      }

  -- Whom a retirement takes was a client, was the oldest of all free ones at the scan, had a lease
  -- that was still free at the claim after the callbacks in between, and is a client no more; all
  -- other clients stay.
  pub retire_takes-IsOldest :
      (es : List (SessionEvent N)) (b b' : Backend N D) (k : N)
      → Inv node b
      → retire_h3_client_locked node states now es b ≡ (some k, b')
      → ((n : Node N D) × (lookup_key node k b.clients ≡ some n))
        × IsOldest b k
        × ((v : ℕ) × (lookup_key node k (late node states es b).client_leases ≡ some v)
            × (is_kept states v now ≡ false))
        × ((p : N)
            → lookup_key node p b'.clients
              ≡ (if node.eq.beq k p then none else lookup_key node p b.clients))
  retire_takes-IsOldest es b b' k v r = elim (retire-cases node states now es b) [
    | inl e ↦ absurd (cc (sym e ∙ r))
    | inr (c, o, l, found, at, free, e) ↦
        let both = sym e ∙ r in
        let same : c ≡ k = some-eq (ap (λ (x : Option N × Backend N D). x.0) both) in
        let after = ap (λ (x : Option N × Backend N D). x.1) both in
        let old = scan-IsOldest b c o found in
        (
          client_of_lease node b k old.lease v
              (ap (λ j. lookup_key node j b.client_leases) (sym same) ∙ old.held),
          subst (IsOldest b) same old,
          (
            l,
            ap (λ j. lookup_key node j (late node states es b).client_leases) (sym same) ∙ at,
            free,
          ),
          λ p.
              ap (λ (x : Backend N D). lookup_key node p x.clients) (sym after)
              ∙ lookup-erase ⦃e = node.eq⦄ c p b.clients
              ∙ ap (λ j. if node.eq.beq j p then none else lookup_key node p b.clients) same,
        )
  ]

  -- With no callback between scan and claim, nobody is taken only if no client's lease is free.
  pub retire_refuses :
      (b b' : Backend N D) (p : N) (m : Node N D) (w : ℕ)
      → retire_h3_client_locked node states now [] b ≡ (none, b')
      → lookup_key node p b.clients ≡ some m
      → lookup_key node p b.client_leases ≡ some w
      → is_kept states w now ≡ true
  unfolding session_events
  retire_refuses b b' p m w r i j = elim (Bool-cases (is_kept states w now)) [
    | inl t ↦ t
    | inr f ↦
        let (k, o, e, _) = scan-free node states now b.client_leases b.clients none p m w i j f in
        let old = scan-IsOldest b k o e in
        absurd (cc (sym r ∙ retire-of_scan node states now [] b k o old.lease e old.held old.free))
  ]
