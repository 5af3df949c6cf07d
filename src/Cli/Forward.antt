-- ===== src/Cli/Forward.antt =====
-- cmd/tailcat/forward.go: port mappings and the listeners that runForward opens for them. Parsing an
-- IP address with a port, the listening and the printing of an address are parameters.
pub mod Listening
use tailcat_quic.Base.{
  ltb, leb, ◌==◌, if◌then◌else◌, ltb→lt, lt→ltb, leb→le, ==_iff, Bool-cases, Option-cases, Eq, beq,
  beq_refl, eq_of_beq, not_rejected, was_required, or-eq_false, not-eq_false, some-eq, length,
  get_elem?, get_or, take, drop, replicate, length-append, take-append-drop, length-take,
  length-drop, take-length_append, drop-length_append, take-of_length, drop-of_length,
  length-replicate, All, any, take-two_fields, take-drop-two_fields, drop-drop-two_fields,
  three_fields, drop-drop, four_fields, codes, bytes_eq, bytes_eq_sound, bytes_eq_self,
  bytes_eq_iff, slice, has_prefix, IsByte, lookup, insert, erase, lookup-insert, lookup-erase,
  length-erase-le, length-erase-present, length-insert-absent, ℕ, zero, suc, ◌+◌, ◌-◌, ◌*◌, ◌/◌,
  ◌%◌, ◌^◌, ◌≤◌, ◌<◌, max, min, compare, Ordering, ◌≡◌, refl, sym, ap, ap₂, ◌∙◌, subst, ◌≢◌, ◌↔◌,
  ◌⊎◌, inl, inr, Bool, true, false, not, ◌&&◌, ◌||◌, Option, none, some, List, [], ◌∷◌, ◌++◌, map,
  append_assoc, append-nil, arith, ℕ_discrete,
}
use tailcat_quic.Text.{cut, parse_uint16, format_uint}
use tailcat_quic.Text.HostPort.{join_host_port}
use tailcat_quic.NetAddr.{AddrPort}

-- forwardSpec; a target that is not valid is `none`.
pub record ForwardSpec : Type 0 where
  pub listen_addr : List ℕ
  pub target : Option AddrPort
  pub port : ℕ

abbrev not_zero : Option ℕ → Option ℕ
not_zero none = none
not_zero (some p) = if p == 0 then none else some p

-- parseForwardPort
unfoldable pub parse_forward_port : List ℕ → Option ℕ
unfolding parse_uint16
parse_forward_port s = not_zero (parse_uint16 s)

module _ (parse_addr_port : List ℕ → Option AddrPort) (bind : List ℕ) where
  abbrev spec_at : ℕ → ForwardSpec
  spec_at p = record { listen_addr = join_host_port bind (format_uint p); target = none; port = 0 }

  -- The remote side: a port, or an address with a port.
  abbrev to_address : ForwardSpec → Option AddrPort → Option ForwardSpec
  to_address m none = none
  to_address m (some a) = some (record m { target = some a })

  abbrev to_remote : List ℕ → ForwardSpec → Option ℕ → Option ForwardSpec
  to_remote target m (some p) = some (record m { port = p })
  to_remote target m none = to_address m (parse_addr_port target)

  abbrev same_port : Option ℕ → Option ForwardSpec
  same_port none = none
  same_port (some p) = some (record (spec_at p) { port = p })

  abbrev mapped : List ℕ → Option ℕ → Option ForwardSpec
  mapped target none = none
  mapped target (some p) = to_remote target (spec_at p) (parse_forward_port target)

  abbrev by_colon : List ℕ × Option (List ℕ) → Option ForwardSpec
  by_colon (local, none) = same_port (parse_forward_port local)
  by_colon (local, some target) =
      mapped target (if bytes_eq local (codes "0") then some 0 else parse_forward_port local)

  -- parseForwardSpec
  unfoldable pub parse_forward_spec : List ℕ → Option ForwardSpec
  unfolding parse_forward_port cut join_host_port format_uint
  parse_forward_spec spec = by_colon (cut b':' spec)

module _ (addr_port_string : AddrPort → List ℕ) where
  -- forwardSpec.remoteTarget
  unfoldable pub remote_target : ForwardSpec → List ℕ
  remote_target s = elim s.target [
    | some a ↦ addr_port_string a
    | none ↦ join_host_port (codes "localhost") (format_uint s.port)
  ]

-- The calls that runForward makes: a listener opened for a mapping, closed, and an error returned or
-- the wait for the end.
pub data ForwardStep : Type 0 where
  opened : (listener : ℕ) (spec : ForwardSpec) → ForwardStep
  closed : (listener : ℕ) → ForwardStep
  invalid_mapping listen_failed waited : ForwardStep

abbrev close_all : List ℕ → List ForwardStep
close_all ids = map closed ids

module _ (parse_addr_port : List ℕ → Option AddrPort) (bind : List ℕ)
    (listens : ℕ → List ℕ → Bool) where
  -- One mapping: it does not parse, or its listener is or is not opened. The deferred function closes
  -- all listeners again.
  abbrev open_mapping :
      (ℕ → List ℕ → List ForwardStep) → ℕ → List ℕ → Option ForwardSpec → List ForwardStep
  open_mapping again i ids none = close_all ids ++ (invalid_mapping ∷ close_all ids)
  open_mapping again i ids (some m) =
      if listens i m.listen_addr
      then opened i m ∷ again (i + 1) (ids ++ (i ∷ []))
      else close_all ids ++ (listen_failed ∷ close_all ids)

  -- The loop of runForward over the mappings, from the i-th on, with the listeners open so far. At the
  -- end it waits for the context, and closes the listeners.
  unfoldable pub forward_all : List (List ℕ) → ℕ → List ℕ → List ForwardStep
  unfolding parse_forward_spec
  forward_all [] i ids = waited ∷ (close_all ids ++ close_all ids)
  forward_all (spec ∷ specs) i ids =
      open_mapping (forward_all specs) i ids (parse_forward_spec parse_addr_port bind spec)

  -- runForward after its usage check and the client.
  unfoldable pub run_forward : List (List ℕ) → List ForwardStep
  unfolding forward_all
  run_forward specs = forward_all specs 0 []
