-- ===== src/Examples/Packets.antt =====
-- The packet, secret and lease properties at concrete inputs.
use tailcat_quic.Base.{
  take, drop, replicate, All, codes, IsByte, ℕ, zero, suc, ◌+◌, ◌*◌, ◌%◌, ◌≤◌, ◌<◌, ◌≡◌, refl, ◌≢◌,
  true, false, some, List, [], ◌∷◌, ◌++◌, map, arith,
}
use tailcat_quic.Secret.{is_zero, IsSecret, marshal_text, unmarshal_text}
use tailcat_quic.Secret.Hex.{hex_decode, hex_value, lower}
use tailcat_quic.Secret.RoundTrip.{unmarshal_text_sound}
use tailcat_quic.Disco.{parse_meow_ping, encode_meow_ping, is_meow_packet}
use tailcat_quic.Disco.RoundTrip.{parse_meow_ping-encode}
use tailcat_quic.H3.{encode_h3_meow, parse_h3_meow}
use tailcat_quic.H3.Authentic.{
  IsUsable, parse_h3_meow_sound, parse_h3_meow-encode_h3_meow, parse_h3_meow_binds, closing_tag,
}
use tailcat_quic.Lease.{
  second, pack, lease_state, changed_at, h3_lease_retired, SessionStates, h3_client_grace, is_kept,
}
use tailcat_quic.Lease.Packing.{pack_fields}
use tailcat_quic.Lease.Race.{
  set_thread, Pc, Race, IsFresh, load_update, load_claim, swap_claim, claimed, run, step, access,
}
use tailcat_quic.Lease.Race.Winner.{claim_single_winner, retired_is_stale}
use tailcat_quic.NetAddr.{v4, to_nat64, from_nat64, contains}
use tailcat_quic.NetAddr.Laws.{from_nat64-to_nat64}
use tailcat_quic.Examples.Codec.{key_of, codec, constant_tag, all_bytes_sound}

abbrev secret : List ℕ
secret = replicate 32 9

abbrev nonce : List ℕ
nonce = replicate 32 5

secret-IsSecret : IsSecret secret
secret-IsSecret = record { len = refl; bytes = ground arith }

upper : List ℕ
upper = codes "psk:" ++ replicate 64 b'A'

usable : IsUsable codec codec constant_tag secret (key_of 1) (key_of 2) (key_of 3) nonce
unfolding is_zero
usable = record {
  secret_set = refl;
  server_set = refl;
  client_set = refl;
  disco_set = refl;
  nonce_set = refl;
  nonce_len = refl;
}

announced : List ℕ
announced =
    encode_h3_meow codec codec constant_tag secret (key_of 1) (key_of 2) (key_of 3) nonce false

parse_h3_meow-encode_h3_meow_example :
    parse_h3_meow codec codec constant_tag
      (encode_h3_meow codec codec constant_tag secret (key_of 1) (key_of 2) (key_of 3) nonce false)
      secret
      (key_of 1)
      (key_of 2)
      false
    ≡ some (key_of 3, nonce)
parse_h3_meow-encode_h3_meow_example =
    parse_h3_meow-encode_h3_meow codec codec constant_tag secret (key_of 1) (key_of 2) (key_of 3)
      nonce false usable

from_nat64-to_nat64_example : from_nat64 (to_nat64 (v4 3232235777)) ≡ v4 3232235777
unfolding contains
from_nat64-to_nat64_example = from_nat64-to_nat64 (v4 3232235777) (omega arith) refl

pack_fields_example :
    (lease_state (pack 2 (1700000000 * second + 5)) ≡ 2 % 8)
    × (changed_at (pack 2 (1700000000 * second + 5)) ≤ 1700000000 * second + 5)
    × (1700000000 * second + 5 < changed_at (pack 2 (1700000000 * second + 5)) + second)
pack_fields_example = pack_fields 2 (1700000000 * second + 5) (omega arith)

read_back :
    parse_h3_meow codec codec constant_tag announced secret (key_of 1) (key_of 2) false
    ≡ some (key_of 3, nonce)
unfolding announced
read_back = parse_h3_meow-encode_h3_meow_example

parse_h3_meow_sound_example :
    (announced
      ≡ encode_h3_meow codec codec constant_tag secret (key_of 1) (key_of 2) (key_of 3) nonce false)
    × IsUsable codec codec constant_tag secret (key_of 1) (key_of 2) (key_of 3) nonce
parse_h3_meow_sound_example =
    parse_h3_meow_sound codec codec constant_tag announced secret (key_of 1) (key_of 2) false
      (key_of 3) nonce read_back

parse_h3_meow_binds_example :
    (false ≡ false)
    × (key_of 2 ≡ key_of 2)
    × (key_of 3 ≡ key_of 3)
    × (nonce ≡ nonce)
    × (closing_tag codec codec constant_tag secret (key_of 1) (key_of 2) (key_of 3) nonce false
        ≡ closing_tag codec codec constant_tag secret (key_of 1) (key_of 2) (key_of 3) nonce false)
parse_h3_meow_binds_example =
    parse_h3_meow_binds codec codec constant_tag secret secret (key_of 1) (key_of 1) (key_of 2)
      (key_of 2) (key_of 3) (key_of 3) nonce nonce false false usable
      parse_h3_meow-encode_h3_meow_example

ping : List ℕ
ping = encode_meow_ping codec codec (key_of 1) (key_of 3) ++ 0 ∷ []

ping-bytes : All IsByte ping
unfolding ping encode_meow_ping
ping-bytes = all_bytes_sound ping refl

ping-magic : is_meow_packet ping ≡ true
unfolding ping encode_meow_ping is_meow_packet
ping-magic = refl

ping-parses : parse_meow_ping codec codec ping ≡ some (key_of 1, key_of 3)
unfolding ping
ping-parses = parse_meow_ping-encode codec codec (key_of 1) (key_of 3) (0 ∷ []) refl

upper-parses : unmarshal_text upper ≡ some (replicate 32 170)
unfolding unmarshal_text upper hex_decode hex_value
upper-parses = refl

unmarshal_text_sound_example :
    IsSecret (replicate 32 170)
    × (marshal_text (replicate 32 170) ≡ codes "psk:" ++ map lower (drop 4 upper))
    × (take 4 upper ≡ codes "psk:")
unmarshal_text_sound_example = unmarshal_text_sound upper (replicate 32 170) upper-parses

abbrev two_states : SessionStates
two_states = record { established = 2; handshake = 1 }

abbrev racers : ℕ → Pc
racers zero = load_claim (100 * second)
racers (suc zero) = load_claim (100 * second)
racers (suc (suc i)) = load_update 8

abbrev start : Race
start = record { cell = 0; thread = racers }

racers-IsFresh : (k : ℕ) → IsFresh (racers k)
racers-IsFresh zero = tt
racers-IsFresh (suc zero) = tt
racers-IsFresh (suc (suc k)) = omega arith

abbrev loads : List ℕ
loads = 0 ∷ 1 ∷ []

abbrev swaps : List ℕ
swaps = 0 ∷ 1 ∷ 0 ∷ 1 ∷ []

first-wins : (run two_states swaps start).thread 0 ≡ claimed true
unfolding run step access is_kept set_thread lease_state changed_at
first-wins = refl

claim_single_winner_example :
    ((run two_states swaps start).thread 1 ≡ claimed true → ◌≡◌ {A = ℕ} 0 1)
    × ((more : List ℕ) → (run two_states more (run two_states swaps start)).cell ≡ h3_lease_retired)
claim_single_winner_example =
    claim_single_winner two_states start swaps 0 1 racers-IsFresh first-wins

live : (run two_states loads start).cell ≢ h3_lease_retired
unfolding run step access is_kept set_thread lease_state changed_at
live = omega arith

retires : (step two_states 0 (run two_states loads start)).cell ≡ h3_lease_retired
unfolding run step access is_kept set_thread lease_state changed_at
retires = refl

retired_is_stale_example :
    (now : ℕ) × ((run two_states loads start).thread 0
      ≡ swap_claim now (run two_states loads start).cell)
    × (lease_state (run two_states loads start).cell ≢ two_states.established)
    × (changed_at (run two_states loads start).cell + h3_client_grace ≤ now)
retired_is_stale_example = retired_is_stale two_states start loads 0 racers-IsFresh live retires
