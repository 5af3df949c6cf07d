-- ===== src/Cli/Sets.antt =====
-- Sets of ports stay in order, and what parsePortSet returns is one.
use tailcat_quic.Base.{
  ltb, leb, ◌==◌, ltb→lt, Bool-cases, codes, bytes_eq, ℕ, zero, suc, ◌+◌, ◌-◌, ◌%◌, ◌≤◌, ◌<◌, ◌≡◌,
  refl, ◌∙◌, inl, inr, Bool, not, ◌&&◌, ◌||◌, Option, none, some, List, [], ◌∷◌, arith,
}
use tailcat_quic.Results.{ok, err, ◌>>=◌, Holds, Holds->>=, Holds-after, Holds-if}
use tailcat_quic.Text.{cut, split, trim_space, is_digits}
use tailcat_quic.Cli.{Services, no_services, PortSet, has_port, add_port, add_ports, AscendsFrom}
use tailcat_quic.Cli.Ports.{
  Parsed, named_service, parse_port, add_between, add_numbered, parse_element, parse_elements,
  parse_port_set, is_port_range, service_or_number, parse_numbered, unknown_service, no_ssh_support,
  is_ssh_name,
}

AscendsFrom-mono : (n m : ℕ) (s : PortSet) → AscendsFrom n s → m ≤ n → AscendsFrom m s
AscendsFrom-mono n m [] h l = tt
AscendsFrom-mono n m (p ∷ s) h l = (omega arith, h.1, h.2)

add_port-AscendsFrom :
    (p n : ℕ) (s : PortSet) → p < 65536 → n ≤ p → AscendsFrom n s → AscendsFrom n (add_port p s)
unfolding add_port
add_port-AscendsFrom p n [] l b h = (b, l, tt)
add_port-AscendsFrom p n (q ∷ s) l b h = elim (Bool-cases (ltb p q)) [
  | inl lt ↦ rw lt (b, l, (omega (arith, ltb→lt p q lt), h.1, h.2))
  | inr ge ↦ rw ge (elim (Bool-cases (p == q)) [
    | inl e ↦ rw e h
    | inr ne ↦ rw ne (h.0, h.1, add_port-AscendsFrom p (q + 1) s l (ground arith) h.2)
  ])
]

pub has_port-add_port :
    (x p : ℕ) (s : PortSet) → has_port x (add_port p s) ≡ (p == x || has_port x s)
unfolding add_port
has_port-add_port x p [] = refl
has_port-add_port x p (q ∷ s) = ground (arith, has_port-add_port x p s)

add_ports-AscendsFrom : (n p : ℕ) (s : PortSet) → AscendsFrom 0 s → AscendsFrom 0 (add_ports n p s)
unfolding add_ports
add_ports-AscendsFrom zero p s h = h
add_ports-AscendsFrom (suc n) p s h =
    add_ports-AscendsFrom n (p + 1) (add_port (p % 65536) s)
      (add_port-AscendsFrom (p % 65536) 0 s (omega arith) (omega arith) h)

-- Adding n ports from p on puts exactly p, …, p + n - 1 into the set.
pub has_port-add_ports :
    (x n p : ℕ) (s : PortSet)
    → p + n ≤ 65536
    → has_port x (add_ports n p s) ≡ ((leb p x && ltb x (p + n)) || has_port x s)
unfolding add_ports
has_port-add_ports x zero p s h = ground arith
has_port-add_ports x (suc n) p s h =
    has_port-add_ports x n (p + 1) (add_port (p % 65536) s) (omega arith)
    ∙ ground (arith, has_port-add_port x (p % 65536) s)

abbrev Ascends : PortSet → Type 0
Ascends s = AscendsFrom 0 s

abbrev AscendsIn : Parsed → Type 0
AscendsIn r = AscendsFrom 0 r.0

module _ (s : PortSet) (h : AscendsFrom 0 s) where
  add_between-AscendsFrom : (lo hi : ℕ) → AscendsFrom 0 (add_between lo hi s)
  unfolding add_between
  add_between-AscendsFrom lo hi = elim (Bool-cases (ltb hi lo)) [
    | inl e ↦ rw e (add_ports-AscendsFrom (lo + 1 - hi) hi s h)
    | inr e ↦ rw e (add_ports-AscendsFrom (hi + 1 - lo) lo s h)
  ]

  add_numbered-AscendsFrom : (c : List ℕ × Option (List ℕ)) → Holds Ascends (add_numbered c s)
  unfolding add_numbered
  add_numbered-AscendsFrom (a, none) =
      Holds->>= Ascends (parse_port a) (λ lo. ok (add_between lo lo s))
        (λ lo. add_between-AscendsFrom lo lo)
  add_numbered-AscendsFrom (a, some b) =
      Holds->>= Ascends (parse_port a) (λ lo. parse_port b >>= λ hi. ok (add_between lo hi s))
        (λ lo.
          Holds->>= Ascends (parse_port b) (λ hi. ok (add_between lo hi s))
            (λ hi. add_between-AscendsFrom lo hi))

  service_or_number-AscendsFrom :
      (r : List ℕ) (w : Option Services) (v : Services)
      → Holds AscendsIn (service_or_number r w (s, v))
  unfolding service_or_number parse_numbered
  service_or_number-AscendsFrom r (some w) v = h
  service_or_number-AscendsFrom r none v =
      Holds-if AscendsIn (not (is_digits r) && not (is_port_range r)) (err (unknown_service r))
        (add_numbered (cut b'-' r) s >>= λ t. ok (t, v)) tt
        (Holds-after AscendsIn Ascends (add_numbered (cut b'-' r) s) (λ t. ok (t, v))
          (add_numbered-AscendsFrom (cut b'-' r)) (λ t g. g))

  parse_element-AscendsFrom :
      (b : Bool) (r : List ℕ) (v : Services) → Holds AscendsIn (parse_element b r (s, v))
  unfolding parse_element
  parse_element-AscendsFrom b r v = elim (Bool-cases (bytes_eq r (codes "all"))) [
    | inl e ↦ rw e (add_ports-AscendsFrom 65535 1 s h)
    | inr e ↦ rw e (
        Holds-if AscendsIn (is_ssh_name r && not b) (err no_ssh_support)
          (service_or_number r (named_service r v) (s, v)) tt
          (service_or_number-AscendsFrom r (named_service r v) v))
  ]

parse_elements-AscendsFrom :
    (b : Bool) (rs : List (List ℕ)) (acc : Parsed)
    → AscendsIn acc
    → Holds AscendsIn (parse_elements b rs acc)
unfolding parse_elements
parse_elements-AscendsFrom b [] acc h = h
parse_elements-AscendsFrom b (r ∷ rs) (s, v) h =
    Holds-after AscendsIn AscendsIn (parse_element b (trim_space r) (s, v)) (parse_elements b rs)
      (parse_element-AscendsFrom s h b (trim_space r) v)
      (λ acc. parse_elements-AscendsFrom b rs acc)

-- What parsePortSet returns is a set of 16-bit ports in ascending order.
pub parse_port_set-AscendsFrom :
    (b : Bool) (spec : List ℕ) → Holds (λ (r : Parsed). AscendsFrom 0 r.0) (parse_port_set b spec)
unfolding parse_port_set
parse_port_set-AscendsFrom b [] = tt
parse_port_set-AscendsFrom b (c ∷ s) =
    parse_elements-AscendsFrom b (split b',' (trim_space (c ∷ s))) ([], no_services) tt
