-- ===== src/Service/Lifecycle/Preserved.antt =====
-- Opening a listener on a free port and closing one that holds its port keep the invariant.
use tailcat_quic.Base.{
  ◌==◌, Bool-cases, lookup, ℕ, ◌≤◌, ◌<◌, ◌≡◌, refl, sym, ap, ◌∙◌, ◌≢◌, ◌⊎◌, inl, inr, Bool, false,
  ◌&&◌, none, some, arith, nat_eq,
}
use tailcat_quic.Service.{Proto, Listener, Server}
use tailcat_quic.Service.Listeners.{proto_of, listeners, is_closed}
use tailcat_quic.Service.Lifecycle.{
  Inv, same, same_iff, new_listener, added, lookup-added, shut, lookup-shut, is_closed-shut,
  next_id-shut, shut-current, next_id-added, is_closed-added, added-current,
}

module _ {H U : Type 0} where
  module _ (ln : Listener) (s : Server H U) (v : Inv s)
      (h : lookup ln.port (listeners (proto_of ln.udp) s) ≡ some ln) where
    kept :
        (q : Proto) (t : ℕ) (l : Listener)
        → lookup t (listeners q (shut ln s)) ≡ some l
        → (lookup t (listeners q s) ≡ some l) × ((same (proto_of ln.udp) q && ln.port == t) ≡ false)
    kept q t l e = ground (arith, lookup-shut ln.udp ln.port ln.id s q t)

    kept-other :
        (q : Proto) (t : ℕ) (l : Listener)
        → lookup t (listeners q (shut ln s)) ≡ some l
        → ln.id ≢ l.id
    kept-other q t l e i =
        let (before, apart) = kept q t l e in
        let (sq, st) = v.single (proto_of ln.udp) q ln.port t ln l h before i in
        absurd (ground (arith, (same_iff (proto_of ln.udp) q).1 sq, st, apart))

    pub shut-Inv : Inv (shut ln s)
    shut-Inv = record {
      held = λ q t l e.
          let before = (kept q t l e).0 in
          let (a, b, c, d) = v.held q t l before in
          (
            a,
            b,
            omega (arith, c, next_id-shut ln.udp ln.port ln.id s),
            ground (arith, d, is_closed-shut ln l s, kept-other q t l e),
          );
      single = λ q r p t a b i j e. v.single q r p t a b (kept q p a i).0 (kept r t b j).0 e;
      old = λ l e. ground (
        arith,
        v.old l,
        is_closed-shut ln l s,
        (v.held (proto_of ln.udp) ln.port ln h).2,
        next_id-shut ln.udp ln.port ln.id s,
      );
      current = shut-current ln s;
    }

  module _ (u : Bool) (port : ℕ) (s : Server H U) (v : Inv s)
      (free : lookup port (listeners (proto_of u) s) ≡ none) where
    added-cases :
        (q : Proto) (t : ℕ) (l : Listener)
        → lookup t (listeners q (added u port s)) ≡ some l
        → ((l ≡ new_listener u port s) × (proto_of u ≡ q) × (port ≡ t))
          ⊎ (lookup t (listeners q s) ≡ some l)
    added-cases q t l e = ground (arith, lookup-added u port s q t, same_iff (proto_of u) q)

    new_listener-fields :
        ((new_listener u port s).id ≡ s.next_id)
        × ((new_listener u port s).port ≡ port)
        × ((new_listener u port s).udp ≡ u)
    unfolding new_listener
    new_listener-fields = (refl, refl, refl)

    not_closed_new : (l : Listener) → s.next_id ≤ l.id → is_closed l s ≡ false
    not_closed_new l h = elim (Bool-cases (is_closed l s)) [
      | inl e ↦ absurd (omega (arith, v.old l e))
      | inr e ↦ e
    ]

    added-held :
        (q : Proto) (t : ℕ) (l : Listener)
        → lookup t (listeners q (added u port s)) ≡ some l
        → (l.port ≡ t)
          × (proto_of l.udp ≡ q)
          × (l.id < (added u port s).next_id)
          × (is_closed l (added u port s) ≡ false)
    added-held q t l e = elim (added-cases q t l e) [
      | inl (same_l, pq, pt) ↦
          let (i, p, w) = new_listener-fields in
          let li = ap (λ (x : Listener). x.id) same_l in
          (
            ap (λ (x : Listener). x.port) same_l ∙ p ∙ pt,
            ap (λ (x : Listener). proto_of x.udp) same_l ∙ ap proto_of w ∙ pq,
            omega (arith, li, i, next_id-added u port s),
            is_closed-added u port s l ∙ not_closed_new l (omega (arith, li, i)),
          )
      | inr before ↦
          let (a, b, c, d) = v.held q t l before in
          (a, b, omega (arith, c, next_id-added u port s), is_closed-added u port s l ∙ d)
    ]

    added-single :
        (q r : Proto) (p t : ℕ) (a b : Listener)
        → lookup p (listeners q (added u port s)) ≡ some a
        → lookup t (listeners r (added u port s)) ≡ some b
        → a.id ≡ b.id
        → (q ≡ r) × (p ≡ t)
    added-single q r p t a b i j e =
        let id_of : Listener → ℕ = λ x. x.id in
        elim (added-cases q p a i) [
          | inl (la, qa, pa) ↦ elim (added-cases r t b j) [
            | inl (lb, qb, pb) ↦ (sym qa ∙ qb, sym pa ∙ pb)
            | inr old_b ↦
                absurd
                  (omega (arith, ap id_of la, new_listener-fields.0, (v.held r t b old_b).2, e))
          ]
          | inr old_a ↦ elim (added-cases r t b j) [
            | inl (lb, qb, pb) ↦
                absurd
                  (omega (arith, ap id_of lb, new_listener-fields.0, (v.held q p a old_a).2, e))
            | inr old_b ↦ v.single q r p t a b old_a old_b e
          ]
        ]

    pub added-Inv : Inv (added u port s)
    added-Inv = record {
      held = added-held;
      single = added-single;
      old = λ l e.
          omega (arith, v.old l (sym (is_closed-added u port s l) ∙ e), next_id-added u port s);
      current = added-current u port s;
    }
