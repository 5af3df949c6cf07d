-- ===== src/Examples/Admission.antt =====
-- The properties of admission, retirement and peer policy at concrete inputs.
use tailcat_quic.Base.{
  if◌then◌else◌, lookup, insert, ℕ, ◌*◌, ◌≡◌, refl, ◌≢◌, ◌↔◌, inr, true, false, none, some, [],
  arith,
}
use tailcat_quic.Lease.{
  second, pack, lease_state, changed_at, SessionStates, is_kept, reclaimable, update,
  claim_retirement, new_h3_client_lease,
}
use tailcat_quic.NetAddr.{tc_addr_for_key}
use tailcat_quic.Backend.{Node, Backend}
use tailcat_quic.Backend.Retire.{
  lookup_key, retire_h3_client_locked, claim_found, scan, claim, consider, session_events,
}
use tailcat_quic.Backend.Retire.Oldest.{late}
use tailcat_quic.Backend.Admission.{on_meow, meow_from_new, admit, is_ignored, client_node}
use tailcat_quic.Backend.Admission.Clients.{Inv}
use tailcat_quic.Backend.Admission.Invariant.{on_meow-Inv}
use tailcat_quic.Backend.Admission.Eviction.{on_meow_keeps_established}
use tailcat_quic.Backend.Admission.Outcome.{Meaning, is_admitted, on_meow_outcome}
use tailcat_quic.Backend.Admission.Retirement.{IsOldest, retire_takes-IsOldest, retire_refuses}
use tailcat_quic.Backend.Policy.{source_allowed, is_foreign}
use tailcat_quic.Backend.Policy.Laws.{source_allowed_iff}
use tailcat_quic.Examples.Codec.{Key, key_of, codec}

abbrev two_states : SessionStates
two_states = record { established = 2; handshake = 1 }

-- A server that nobody has reached yet.
abbrev empty : Backend Key Key
empty = record {
  public_key = key_of 1;
  disco_public = key_of 2;
  own_addr = tc_addr_for_key codec (key_of 1);
  server_pub = key_of 0;
  derp_region = 1;
  allowed_clients = none;
  clients = [];
  client_leases = [];
  next_client_id = 1;
  nm = none;
  eps = [];
}

empty-Inv : Inv codec empty
unfolding lookup
empty-Inv = record {
  bounded = omega arith;
  same_keys = λ k. (λ e. refl, λ e. refl);
  clients_ok = λ k n h. absurd (ground arith);
  unique = λ j k n m h i e. absurd (ground arith);
}

-- The server after one announcement.
one : Backend Key Key
one = (on_meow codec codec two_states 0 [] (100 * second) (key_of 7) (key_of 8) empty).1

on_meow-Inv_example :
    Inv codec (on_meow codec codec two_states 0 [] (100 * second) (key_of 7) (key_of 8) empty).1
on_meow-Inv_example =
    on_meow-Inv codec codec two_states 0 [] (100 * second) (key_of 7) (key_of 8) empty empty-Inv

one-Inv : Inv codec one
unfolding one
one-Inv = on_meow-Inv_example

seven : Node Key Key
unfolding client_node
seven = client_node codec codec two_states 2 (key_of 7) (key_of 8) 1

one-has_seven : lookup_key codec (key_of 7) one.clients ≡ some seven
unfolding one seven lookup insert on_meow meow_from_new admit is_ignored
one-has_seven = refl

one-lease :
    lookup_key codec (key_of 7) one.client_leases
    ≡ some (new_h3_client_lease two_states (100 * second))
unfolding one seven lookup insert on_meow meow_from_new admit is_ignored
one-lease = refl

on_meow_keeps_established_example :
    lookup_key codec
      (key_of 7)
      (on_meow codec codec two_states
        (120 * second)
        []
        (121 * second)
        (key_of 9)
        (key_of 10)
        one).1.clients
    ≡ some seven
unfolding late session_events pack changed_at new_h3_client_lease update
on_meow_keeps_established_example =
    on_meow_keeps_established codec codec two_states (120 * second) [] (121 * second) (key_of 9)
      (key_of 10) one (key_of 7) seven (new_h3_client_lease two_states (100 * second)) one-has_seven
      one-lease (inr (omega arith))

on_meow_outcome_example :
    ((on_meow codec codec two_states (120 * second) [] (121 * second) (key_of 9) (key_of 10) one).0
      ≡ is_admitted codec codec two_states
          (120 * second)
          []
          (121 * second)
          (key_of 9)
          (key_of 10)
          one)
    × Meaning codec codec two_states
        (key_of 9)
        (key_of 10)
        one
        (on_meow codec codec two_states (120 * second) [] (121 * second) (key_of 9) (key_of 10) one)
on_meow_outcome_example =
    on_meow_outcome codec codec two_states (120 * second) [] (121 * second) (key_of 9) (key_of 10)
      one

one-is_server : codec.is_zero one.server_pub ≡ true
unfolding one on_meow meow_from_new admit is_ignored lookup
one-is_server = refl

source_allowed_iff_example :
    (source_allowed codec (key_of 1) (key_of 7) (tc_addr_for_key codec (key_of 7)) one ≡ true) ↔ (
      (is_foreign codec (key_of 1) (key_of 7) one ≡ false)
      × (lookup_key codec (key_of 7) one.clients ≢ none)
      × (tc_addr_for_key codec (key_of 7) ≡ tc_addr_for_key codec (key_of 7)))
source_allowed_iff_example =
    source_allowed_iff codec (key_of 1) (key_of 7) (tc_addr_for_key codec (key_of 7)) one one-Inv
      one-is_server

after : Backend Key Key
after = (retire_h3_client_locked codec two_states (1000 * second) [] one).1

retires_seven :
    retire_h3_client_locked codec two_states (1000 * second) [] one ≡ (some (key_of 7), after)
unfolding after one on_meow meow_from_new admit is_ignored lookup insert retire_h3_client_locked
    scan consider claim claim_found session_events reclaimable claim_retirement is_kept lease_state
    changed_at new_h3_client_lease update pack
retires_seven = refl

retire_takes-IsOldest_example :
    ((n : Node Key Key) × (lookup_key codec (key_of 7) one.clients ≡ some n))
    × IsOldest codec two_states (1000 * second) one (key_of 7)
    × ((v : ℕ) × (lookup_key codec (key_of 7) (late codec two_states [] one).client_leases ≡ some v)
        × (is_kept two_states v (1000 * second) ≡ false))
    × ((p : Key)
        → lookup_key codec p after.clients
          ≡ (if codec.eq.beq (key_of 7) p then none else lookup_key codec p one.clients))
retire_takes-IsOldest_example =
    retire_takes-IsOldest codec two_states (1000 * second) [] one after (key_of 7) one-Inv
      retires_seven

unchanged : Backend Key Key
unchanged = (retire_h3_client_locked codec two_states (120 * second) [] one).1

refuses : retire_h3_client_locked codec two_states (120 * second) [] one ≡ (none, unchanged)
unfolding unchanged one on_meow meow_from_new admit is_ignored lookup insert retire_h3_client_locked
    scan consider claim claim_found session_events reclaimable claim_retirement is_kept lease_state
    changed_at new_h3_client_lease update pack
refuses = refl

retire_refuses_example :
    is_kept two_states (new_h3_client_lease two_states (100 * second)) (120 * second) ≡ true
retire_refuses_example =
    retire_refuses codec two_states (120 * second) one unchanged (key_of 7) seven
      (new_h3_client_lease two_states (100 * second)) refuses one-has_seven one-lease
