-- ===== src/Examples/Bootstrap.antt =====
-- The bootstrap properties at concrete inputs.
use tailcat_quic.Base.{
  replicate, lookup, ℕ, ◌<◌, ◌≡◌, refl, Bool, true, false, none, List, [], arith,
}
use tailcat_quic.Secret.{is_zero}
use tailcat_quic.H3.{encode_h3_meow}
use tailcat_quic.H3.Authentic.{IsUsable}
use tailcat_quic.Backend.{Backend, Effect}
use tailcat_quic.Lease.{SessionStates}
use tailcat_quic.Backend.Admission.{on_meow, meow_from_new, admit, is_ignored}
use tailcat_quic.Backend.Admission.Outcome.{Meaning, is_admitted}
use tailcat_quic.Backend.Bootstrap.{scheduled, on_derp_recv, acknowledge, meow_slots}
use tailcat_quic.Backend.Bootstrap.Handshake.{Replied, bootstrap_completes, on_derp_recv_sound}
use tailcat_quic.NetAddr.{v6}
use tailcat_quic.Examples.Codec.{Key, key_of, codec, constant_tag}

abbrev secret : List ℕ
secret = replicate 32 9

abbrev two_states : SessionStates
two_states = record { established = 2; handshake = 1 }

abbrev nonce : List ℕ
nonce = replicate 32 5

abbrev server : Backend Key Key
server = record {
  public_key = key_of 1;
  disco_public = key_of 2;
  own_addr = v6 5;
  server_pub = key_of 0;
  derp_region = 1;
  allowed_clients = none;
  clients = [];
  client_leases = [];
  next_client_id = 1;
  nm = none;
  eps = [];
}

usable : IsUsable codec codec constant_tag secret (key_of 1) (key_of 7) (key_of 8) nonce
unfolding is_zero
usable = record {
  secret_set = refl;
  server_set = refl;
  client_set = refl;
  disco_set = refl;
  nonce_set = refl;
  nonce_len = refl;
}

announced : List ℕ
announced =
    encode_h3_meow codec codec constant_tag secret (key_of 1) (key_of 7) (key_of 8) nonce false

abbrev result : Bool × Backend Key Key × List (Effect Key Key)
result = on_meow codec codec two_states 100 [] 101 (key_of 7) (key_of 8) server

bootstrap_completes_example :
    (on_derp_recv codec codec constant_tag secret 3
        (key_of 7)
        (encode_h3_meow codec codec constant_tag secret
          (key_of 1)
          (key_of 7)
          (key_of 8)
          nonce
          false)
        server
      ≡ scheduled (key_of 8) nonce)
    × Replied codec codec constant_tag secret
        (key_of 1)
        (key_of 7)
        (key_of 8)
        nonce
        result.0
        (acknowledge codec codec constant_tag secret (key_of 7) (key_of 8) nonce server result.0)
    × (result.0 ≡ is_admitted codec codec two_states 100 [] 101 (key_of 7) (key_of 8) server)
    × Meaning codec codec two_states (key_of 7) (key_of 8) server result
bootstrap_completes_example =
    bootstrap_completes codec codec constant_tag two_states secret 3 100 [] 101 (key_of 7)
      (key_of 8) nonce server usable (omega arith)

-- The new client is admitted.
admits : result.0 ≡ true
unfolding on_meow meow_from_new admit is_ignored lookup
admits = refl

schedules :
    on_derp_recv codec codec constant_tag secret 3 (key_of 7) announced server
    ≡ scheduled (key_of 8) nonce
unfolding announced
schedules = bootstrap_completes_example.0

on_derp_recv_sound_example :
    (announced
      ≡ encode_h3_meow codec codec constant_tag secret (key_of 1) (key_of 7) (key_of 8) nonce false)
    × (3 < meow_slots)
on_derp_recv_sound_example =
    on_derp_recv_sound codec codec constant_tag secret 3 (key_of 7) announced server (key_of 8)
      nonce schedules
