-- ===== src/Cli/Serve/Agreement.antt =====
-- The packet filter and OnTCP of a planned server agree.
use tailcat_quic.Base.{
  ltb, ◌==◌, ==_iff, Bool-cases, length, ℕ, ◌+◌, ◌<◌, ◌≡◌, refl, ap, ◌∙◌, inl, inr, true, false,
  not, ◌&&◌, ◌||◌, none, [], ◌∷◌, arith, nat_eq,
}
use tailcat_quic.Service.{is_set}
use tailcat_quic.Service.Handlers.{is_served}
use tailcat_quic.Cli.{PortSet, AscendsFrom, has_port}
use tailcat_quic.Cli.Ranges.{DoesNotWrap, port_ranges, in_range-port_ranges}
use tailcat_quic.Cli.Serve.{
  Plan, is_one_shot, has_ssh_server, ports_to_serve, served_tcp_ports, on_tcp,
}

Ascends-DoesNotWrap : (q : ℕ) (ps : PortSet) → q < 65536 → AscendsFrom (q + 1) ps → DoesNotWrap q ps
Ascends-DoesNotWrap q [] l h = l
Ascends-DoesNotWrap q (p ∷ ps) l h =
    (l, (λ e. absurd (omega arith)), Ascends-DoesNotWrap p ps h.1 h.2)

served-sorted :
    (x : ℕ) (ps : PortSet)
    → AscendsFrom 0 ps
    → ltb 0 (length ps) ≡ true
    → is_served x (port_ranges ps) ≡ has_port x ps
served-sorted x [] h l = absurd (ground arith)
served-sorted x (p ∷ ps) h l = in_range-port_ranges x p ps (Ascends-DoesNotWrap p ps h.1 h.2)

-- Port 22 in front of any sorted ports.
served-ssh :
    (x : ℕ) (ps : PortSet)
    → AscendsFrom 0 ps
    → is_served x (port_ranges (22 ∷ ps)) ≡ has_port x (22 ∷ ps)
served-ssh x [] h = in_range-port_ranges x 22 [] (omega arith)
served-ssh x (p ∷ ps) h =
    in_range-port_ranges x 22 (p ∷ ps)
      (omega arith, (λ e. absurd (omega arith)), Ascends-DoesNotWrap p ps h.1 h.2)

has_port-eq : (x y : ℕ) (ps : PortSet) → (x == y) ≡ true → has_port x ps ≡ has_port y ps
has_port-eq x y ps e = ap (λ z. has_port z ps) ((==_iff x y).0 e)

module _ (p : Plan) (h : AscendsFrom 0 p.ports) (o : is_one_shot p ≡ false)
    (n : p.services.exit_node ≡ false) (e : p.services.exec ≡ false) where
  some_port :
      (has_ssh_server p.services && not (has_port 22 p.ports)) ≡ false
      → ltb 0 (length p.ports) ≡ true
  some_port s = elim (Bool-cases (has_ssh_server p.services)) [
    | inl y ↦ present p.ports (ground arith)
    | inr f ↦ ground arith
  ]
    where
      present : (ps : PortSet) → has_port 22 ps ≡ true → ltb 0 (length ps) ≡ true
      present [] g = g
      present (q ∷ qs) g = ground arith

  served-ports_to_serve :
      (x : ℕ)
      → is_served x (port_ranges (ports_to_serve p))
        ≡ ((x == 22 && has_ssh_server p.services) || has_port x p.ports)
  served-ports_to_serve x =
      elim (Bool-cases (has_ssh_server p.services && not (has_port 22 p.ports))) [
        | inl s ↦ rw s (served-ssh x p.ports h ∙ ground arith)
        | inr s ↦ rw s (served-sorted x p.ports h (some_port s) ∙ also s)
      ]
    where
      also :
          (has_ssh_server p.services && not (has_port 22 p.ports)) ≡ false
          → has_port x p.ports ≡ ((x == 22 && has_ssh_server p.services) || has_port x p.ports)
      also s = elim (Bool-cases (x == 22)) [
        | inl y ↦ rw y (ground (arith, has_port-eq x 22 p.ports y))
        | inr f ↦ rw f refl
      ]

pub on_tcp-given :
    (p : Plan) (x : ℕ)
    → is_set (on_tcp p x) ≡ (
        (x == 22 && has_ssh_server p.services)
        || (has_port x p.ports || (p.services.exec || (p.services.exit_node || is_one_shot p))))
unfolding on_tcp
on_tcp-given p x = ground arith

pub served-none : (x : ℕ) → is_served x none ≡ true
unfolding is_served
served-none x = refl

-- The ports that the filter is told are exactly those for which OnTCP has a handler.
pub served-on_tcp :
    (p : Plan) (x : ℕ)
    → AscendsFrom 0 p.ports
    → is_served x (served_tcp_ports p) ≡ is_set (on_tcp p x)
unfolding served_tcp_ports
served-on_tcp p x h =
    elim (Bool-cases (not (is_one_shot p) && (not p.services.exit_node && not p.services.exec))) [
      | inl y ↦ rw y (
          served-ports_to_serve p h (ground arith) (ground arith) (ground arith) x
          ∙ ground (arith, on_tcp-given p x))
      | inr f ↦ rw f (ground (arith, served-none x, on_tcp-given p x))
    ]
