-- ===== src/Cli.antt =====
-- cmd/tailcat: the command line. What a server is asked to serve, and how arguments that name a peer
-- are read. Texts are lists of bytes.
pub mod Ports
pub mod Ranges
pub mod Sets
pub mod Serve
pub mod Quote
pub mod Names
pub mod Ping
pub mod Forward
pub mod Socks
pub mod Ssh
pub mod Cp
pub mod KeySources
use tailcat_quic.Base.{
  ltb, leb, ◌==◌, if◌then◌else◌, ltb→lt, lt→ltb, leb→le, ==_iff, Bool-cases, Option-cases, Eq, beq,
  beq_refl, eq_of_beq, not_rejected, was_required, or-eq_false, not-eq_false, some-eq, length,
  get_elem?, get_or, take, drop, replicate, length-append, take-append-drop, length-take,
  length-drop, take-length_append, drop-length_append, take-of_length, drop-of_length,
  length-replicate, All, any, take-two_fields, take-drop-two_fields, drop-drop-two_fields,
  three_fields, drop-drop, four_fields, codes, bytes_eq, bytes_eq_sound, bytes_eq_self,
  bytes_eq_iff, slice, has_prefix, IsByte, lookup, insert, erase, lookup-insert, lookup-erase,
  length-erase-le, length-erase-present, length-insert-absent, ℕ, zero, suc, ◌+◌, ◌-◌, ◌*◌, ◌/◌,
  ◌%◌, ◌^◌, ◌≤◌, ◌<◌, max, min, compare, Ordering, ◌≡◌, refl, sym, ap, ap₂, ◌∙◌, subst, ◌≢◌, ◌↔◌,
  ◌⊎◌, inl, inr, Bool, true, false, not, ◌&&◌, ◌||◌, Option, none, some, List, [], ◌∷◌, ◌++◌, map,
  append_assoc, append-nil, arith, ℕ_discrete,
}

-- The set of named services of parsePortSet, which has these names only. A nil set has none.
pub record Services : Type 0 where
  pub ssh : Bool
  pub no_auth_ssh : Bool
  pub files : Bool
  pub exit_node : Bool
  pub exec : Bool

abbrev pub no_services : Services
no_services = record {
  ssh = false;
  no_auth_ssh = false;
  files = false;
  exit_node = false;
  exec = false;
}

-- `len(services) == 0`
abbrev pub has_no_service : Services → Bool
has_no_service v = not (v.ssh || (v.no_auth_ssh || (v.files || (v.exit_node || v.exec))))

-- A set of ports, as its elements in ascending order: what slices.Sorted(maps.Keys(set)) lists.
abbrev pub PortSet : Type 0
PortSet = List ℕ

-- set.Set.Contains
abbrev pub has_port : ℕ → PortSet → Bool
has_port p ports = any (λ q. q == p) ports

-- set.Set.Add
unfoldable pub add_port : ℕ → PortSet → PortSet
add_port p [] = p ∷ []
add_port p (q ∷ s) =
    let rest = q ∷ add_port p s in if ltb p q then p ∷ (q ∷ s) else if p == q then q ∷ s else rest

-- Adds the ports from one on, as many as given.
unfoldable pub add_ports : ℕ → ℕ → PortSet → PortSet
add_ports zero p s = s
add_ports (suc n) p s = add_ports n (p + 1) (add_port (p % 65536) s)

-- In ascending order from a lower bound on, and 16-bit ports.
abbrev pub AscendsFrom : ℕ → PortSet → Type 0
AscendsFrom n [] = Unit {0}
AscendsFrom n (p ∷ s) = (n ≤ p) × (p < 65536) × AscendsFrom (p + 1) s
