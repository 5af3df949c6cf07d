-- ===== src/Cli/Forward/Listening.antt =====
-- What runForward opens, it closes.
use tailcat_quic.Base.{
  ◌==◌, Bool-cases, any, ℕ, ◌+◌, ◌≡◌, refl, inl, inr, Bool, true, false, ◌||◌, Option, none, some,
  List, [], ◌∷◌, ◌++◌, arith,
}
use tailcat_quic.NetAddr.{AddrPort}
use tailcat_quic.Cli.Forward.{
  ForwardSpec, ForwardStep, opened, closed, invalid_mapping, listen_failed, waited, close_all,
  open_mapping, parse_forward_spec, forward_all, run_forward,
}

abbrev same_step : ℕ → ForwardStep → Bool
same_step i (closed j) = i == j
same_step i _ = false

-- The listener is closed in a trace.
abbrev pub closes : ℕ → List ForwardStep → Bool
closes i trace = any (same_step i) trace

-- Every listener that a trace opens is closed later in it.
abbrev pub ClosesAll : List ForwardStep → Type 0
ClosesAll [] = Unit {0}
ClosesAll (opened i m ∷ trace) = (closes i trace ≡ true) × ClosesAll trace
ClosesAll (closed i ∷ trace) = ClosesAll trace
ClosesAll (invalid_mapping ∷ trace) = ClosesAll trace
ClosesAll (listen_failed ∷ trace) = ClosesAll trace
ClosesAll (waited ∷ trace) = ClosesAll trace

abbrev has : ℕ → List ℕ → Bool
has i ids = any (λ j. i == j) ids

closes-append : (i : ℕ) (s t : List ForwardStep) → closes i (s ++ t) ≡ (closes i s || closes i t)
closes-append i [] t = refl
closes-append i (x ∷ s) t = ground (arith, closes-append i s t)

closes-close_all : (i : ℕ) (ids : List ℕ) → closes i (close_all ids) ≡ has i ids
closes-close_all i [] = refl
closes-close_all i (j ∷ ids) = ground (arith, closes-close_all i ids)

has-append : (i : ℕ) (s t : List ℕ) → has i (s ++ t) ≡ (has i s || has i t)
has-append i [] t = refl
has-append i (x ∷ s) t = ground (arith, has-append i s t)

close_all-ClosesAll :
    (ids : List ℕ) (t : List ForwardStep) → ClosesAll t → ClosesAll (close_all ids ++ t)
close_all-ClosesAll [] t h = h
close_all-ClosesAll (i ∷ ids) t h = close_all-ClosesAll ids t h

close_all-ClosesAll_nil : (ids : List ℕ) → ClosesAll (close_all ids)
close_all-ClosesAll_nil [] = tt
close_all-ClosesAll_nil (i ∷ ids) = close_all-ClosesAll_nil ids

module _ (parse_addr_port : List ℕ → Option AddrPort) (bind : List ℕ)
    (listens : ℕ → List ℕ → Bool) where
  abbrev Good : List ℕ → List ForwardStep → Type 0
  Good ids t = ClosesAll t × ((i : ℕ) → has i ids ≡ true → closes i t ≡ true)

  fails-Good :
      (x : ForwardStep) (ids : List ℕ)
      → ClosesAll (x ∷ close_all ids)
      → Good ids (close_all ids ++ (x ∷ close_all ids))
  fails-Good x ids h = (
    close_all-ClosesAll ids (x ∷ close_all ids) h,
    λ i e.
        ground (arith, closes-append i (close_all ids) (x ∷ close_all ids), closes-close_all i ids),
  )

  forward_all-Good :
      (specs : List (List ℕ)) (i : ℕ) (ids : List ℕ)
      → Good ids (forward_all parse_addr_port bind listens specs i ids)
  unfolding forward_all
  forward_all-Good [] i ids = (
    close_all-ClosesAll ids (close_all ids) (close_all-ClosesAll_nil ids),
    λ j e. ground (arith, closes-append j (close_all ids) (close_all ids), closes-close_all j ids),
  )
  forward_all-Good (spec ∷ specs) i ids =
      open_good (parse_forward_spec parse_addr_port bind spec)
        (forward_all-Good specs (i + 1) (ids ++ (i ∷ [])))
    where
      rest : List ForwardStep
      rest = forward_all parse_addr_port bind listens specs (i + 1) (ids ++ (i ∷ []))

      open_good :
          (o : Option ForwardSpec)
          → Good (ids ++ (i ∷ [])) rest
          → Good ids (
              open_mapping parse_addr_port bind listens
                (forward_all parse_addr_port bind listens specs)
                i
                ids
                o)
      open_good none h = fails-Good invalid_mapping ids (close_all-ClosesAll_nil ids)
      open_good (some m) h = elim (Bool-cases (listens i m.listen_addr)) [
        | inl y ↦ rw y (
          (h.1 i (ground (arith, has-append i ids (i ∷ []))), h.0),
          λ j e. h.1 j (ground (arith, has-append j ids (i ∷ []))),
        )
        | inr n ↦ rw n (fails-Good listen_failed ids (close_all-ClosesAll_nil ids))
      ]

  -- Whatever mappings are asked for and whichever listeners cannot be opened, every listener that
  -- runForward opens is closed before it returns.
  pub run_forward-ClosesAll :
      (specs : List (List ℕ)) → ClosesAll (run_forward parse_addr_port bind listens specs)
  unfolding run_forward
  run_forward-ClosesAll specs = (forward_all-Good specs 0 []).0
