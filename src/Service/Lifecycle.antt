-- ===== src/Service/Lifecycle.antt =====
-- The invariant of a server's listeners, and what opening and closing one does to the state.
pub mod Preserved
pub mod Outcome
use tailcat_quic.Base.{
  ltb, leb, ◌==◌, if◌then◌else◌, ltb→lt, lt→ltb, leb→le, ==_iff, Bool-cases, Option-cases, Eq, beq,
  beq_refl, eq_of_beq, not_rejected, was_required, or-eq_false, not-eq_false, some-eq, length,
  get_elem?, get_or, take, drop, replicate, length-append, take-append-drop, length-take,
  length-drop, take-length_append, drop-length_append, take-of_length, drop-of_length,
  length-replicate, All, any, take-two_fields, take-drop-two_fields, drop-drop-two_fields,
  three_fields, drop-drop, four_fields, codes, bytes_eq, bytes_eq_sound, bytes_eq_self,
  bytes_eq_iff, slice, has_prefix, IsByte, lookup, insert, erase, lookup-insert, lookup-erase,
  length-erase-le, length-erase-present, length-insert-absent, ℕ, zero, suc, ◌+◌, ◌-◌, ◌*◌, ◌/◌,
  ◌%◌, ◌^◌, ◌≤◌, ◌<◌, max, min, compare, Ordering, ◌≡◌, refl, sym, ap, ap₂, ◌∙◌, subst, ◌≢◌, ◌↔◌,
  ◌⊎◌, inl, inr, Bool, true, false, not, ◌&&◌, ◌||◌, Option, none, some, List, [], ◌∷◌, ◌++◌, map,
  append_assoc, append-nil, arith, ℕ_discrete, nat_eq,
}
use tailcat_quic.Service.{
  Proto, tcp, udp, Listener, Server, Filter, build_filter_locked, install_filter_locked,
}
use tailcat_quic.Service.Listeners.{
  ListenError, err_closed, Result, ok, err, Names, proto_of, listeners, set_listeners, add_listener,
  listen_on, listen_checked, listen, is_closed, release, close_locked, close, choose_port,
  check_host, network_is_udp,
}

abbrev pub same : Proto → Proto → Bool
same tcp tcp = true
same udp udp = true
same _ _ = false

pub same_iff : (q r : Proto) → (same q r ≡ true) ↔ (q ≡ r)
same_iff tcp tcp = (λ e. refl, λ e. refl)
same_iff udp udp = (λ e. refl, λ e. refl)
same_iff tcp udp = (λ e. cc, λ e. cc)
same_iff udp tcp = (λ e. cc, λ e. cc)

module _ {H U : Type 0} where
  -- Every entry is an open listener of its own port and protocol, no listener has two entries, no ID
  -- is given twice, and the engine has the filter of the present listeners.
  pub record Inv (s : Server H U) : Type 0 where
    pub held :
        (q : Proto) (port : ℕ) (ln : Listener)
        → lookup port (listeners q s) ≡ some ln
        → (ln.port ≡ port) × (proto_of ln.udp ≡ q) × (ln.id < s.next_id) × (is_closed ln s ≡ false)
    pub single :
        (q r : Proto) (p t : ℕ) (a b : Listener)
        → lookup p (listeners q s) ≡ some a
        → lookup t (listeners r s) ≡ some b
        → a.id ≡ b.id
        → (q ≡ r) × (p ≡ t)
    pub old : (ln : Listener) → is_closed ln s ≡ true → ln.id < s.next_id
    pub current : s.installed ≡ some (build_filter_locked s)

  pub new_listener : Bool → ℕ → Server H U → Listener
  new_listener is_udp port s = record { id = s.next_id; udp = is_udp; port = port }

  pub added : Bool → ℕ → Server H U → Server H U
  added is_udp port s = (add_listener is_udp port s).1

  pub lookup-added :
      (is_udp : Bool) (port : ℕ) (s : Server H U) (q : Proto) (t : ℕ)
      → lookup t (listeners q (added is_udp port s)) ≡ (
          if same (proto_of is_udp) q && port == t
          then some (new_listener is_udp port s)
          else lookup t (listeners q s))
  unfolding added add_listener new_listener install_filter_locked
  lookup-added false port s tcp t = lookup-insert port t _ s.tcp_listeners
  lookup-added true port s udp t = lookup-insert port t _ s.udp_listeners
  lookup-added false port s udp t = refl
  lookup-added true port s tcp t = refl

  pub shut : Listener → Server H U → Server H U
  shut ln s = install_filter_locked (release ln s)

  pub close-of_open :
      (ln : Listener) (s : Server H U) → is_closed ln s ≡ false → close ln s ≡ (ok tt, shut ln s)
  unfolding shut close close_locked
  close-of_open ln s e = rw e refl

  pub close-of_closed :
      (ln : Listener) (s : Server H U) → is_closed ln s ≡ true → close ln s ≡ (err err_closed, s)
  unfolding close close_locked
  close-of_closed ln s e = rw e refl

  pub lookup-shut :
      (u : Bool) (port i : ℕ) (s : Server H U) (q : Proto) (t : ℕ)
      → let ln : Listener = record { id = i; udp = u; port = port } in
        lookup t (listeners q (shut ln s))
        ≡ (if same (proto_of u) q && port == t then none else lookup t (listeners q s))
  unfolding shut release install_filter_locked
  lookup-shut false port i s tcp t = lookup-erase port t s.tcp_listeners
  lookup-shut true port i s udp t = lookup-erase port t s.udp_listeners
  lookup-shut false port i s udp t = refl
  lookup-shut true port i s tcp t = refl

  pub is_closed-shut :
      (ln l : Listener) (s : Server H U)
      → is_closed l (shut ln s) ≡ (ln.id == l.id || is_closed l s)
  unfolding shut release install_filter_locked is_closed
  is_closed-shut ln l s = go ln.udp
    where
      go :
          (u : Bool)
          → any
              (λ i. i == l.id)
              (record (set_listeners (proto_of u) (erase ln.port (listeners (proto_of u) s)) s) {
                closed = ln.id ∷ s.closed;
              }).closed
            ≡ (ln.id == l.id || any (λ i. i == l.id) s.closed)
      go true = refl
      go false = refl

  pub next_id-shut :
      (u : Bool) (port i : ℕ) (s : Server H U)
      → (shut (record { id = i; udp = u; port = port }) s).next_id ≡ s.next_id
  unfolding shut release install_filter_locked
  next_id-shut true port i s = refl
  next_id-shut false port i s = refl

  current-install :
      (s : Server H U)
      → (install_filter_locked s).installed ≡ some (build_filter_locked (install_filter_locked s))
  unfolding install_filter_locked build_filter_locked
  current-install s = refl

  -- An ID already given is that of no new entry.
  pub next_id-added :
      (u : Bool) (port : ℕ) (s : Server H U) → (added u port s).next_id ≡ s.next_id + 1
  unfolding added add_listener install_filter_locked
  next_id-added true port s = refl
  next_id-added false port s = refl

  pub is_closed-added :
      (u : Bool) (port : ℕ) (s : Server H U) (l : Listener)
      → is_closed l (added u port s) ≡ is_closed l s
  unfolding added add_listener install_filter_locked is_closed
  is_closed-added true port s l = refl
  is_closed-added false port s l = refl

  pub added-current :
      (u : Bool) (port : ℕ) (s : Server H U)
      → (added u port s).installed ≡ some (build_filter_locked (added u port s))
  unfolding added add_listener
  added-current u port s = current-install _

  pub shut-current :
      (ln : Listener) (s : Server H U)
      → (shut ln s).installed ≡ some (build_filter_locked (shut ln s))
  unfolding shut
  shut-current ln s = current-install (release ln s)
