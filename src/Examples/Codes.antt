-- ===== src/Examples/Codes.antt =====
-- The connection-code properties at concrete inputs, under a small encoding without regions.
use tailcat_quic.Base.{
  ◌==◌, length, take, drop, replicate, take-two_fields, take-drop-two_fields, drop-drop-two_fields,
  has_prefix, ℕ, ◌≤◌, ◌≡◌, refl, ap₂, Bool, true, false, ◌&&◌, Option, none, some, List, [], ◌∷◌,
  ◌++◌, arith,
}
use tailcat_quic.Secret.{is_zero}
use tailcat_quic.Address.{WireConnInfo, WireRegion, ConnInfo, Encoding, h3_address_prefix}
use tailcat_quic.Address.Wire.{wire_of, addr}
use tailcat_quic.Address.Parse.{parse_addr}
use tailcat_quic.Address.RoundTrip.{parse_addr-addr, relay_regions}
use tailcat_quic.Address.Accepted.{parse_addr_sound}
use tailcat_quic.Examples.Codec.{Key, key_of, codec}

abbrev pub Wire : Type 0
Wire = WireConnInfo Key Key

abbrev pub plain_fields : Option Key → Option (List ℕ) → List (Option WireRegion) → Bool
plain_fields (some d) (some p) [] = true
plain_fields _ _ _ = false

abbrev pub plain : Wire → Bool
plain w =
    w.version == 1
    && (w.region_id == 0 && plain_fields w.server_disco_public w.preshared_key w.region)

abbrev pub bytes_of : Option Key → Option (List ℕ) → List ℕ
bytes_of (some d) (some p) = d.0 ++ p
bytes_of _ _ = []

abbrev pub write : Wire → List ℕ
write w = w.server_public.0 ++ bytes_of w.server_disco_public w.preshared_key

abbrev pub read : List ℕ → Option Wire
read x = some (record {
  version = 1;
  server_public = codec.from_raw (take 32 x);
  server_disco_public = some (codec.from_raw (take 32 (drop 32 x)));
  preshared_key = some (drop 32 (drop 32 x));
  region = [];
  region_id = 0;
})

read-write_fields :
    (v i : ℕ) (n : Key) (o : Option Key) (p : Option (List ℕ)) (rs : List (Option WireRegion))
    → v ≡ 1
    → i ≡ 0
    → plain_fields o p rs ≡ true
    → let w : Wire = record {
      version = v;
      server_public = n;
      server_disco_public = o;
      preshared_key = p;
      region = rs;
      region_id = i;
    } in
      read (write w) ≡ some w
read-write_fields v i n (some d) (some p) [] ev ei h =
    rw
      (
        ev,
        ei,
        take-two_fields 32 32 n.0 d.0 p (codec.length-raw n) (codec.length-raw d),
        take-drop-two_fields 32 32 n.0 d.0 p (codec.length-raw n) (codec.length-raw d),
        drop-drop-two_fields 32 32 n.0 d.0 p (codec.length-raw n) (codec.length-raw d),
      )
      (ap₂
        (λ a b. some (record {
          version = 1;
          server_public = a;
          server_disco_public = some b;
          preshared_key = some p;
          region = [];
          region_id = 0;
        }))
        (codec.from_raw-raw n) (codec.from_raw-raw d))
read-write_fields v i n (some d) (some p) (r ∷ rs) ev ei h = absurd (ground arith)
read-write_fields v i n (some d) none rs ev ei h = absurd (ground arith)
read-write_fields v i n none p rs ev ei h = absurd (ground arith)

pub read-write : (w : Wire) → plain w ≡ true → read (write w) ≡ some w
read-write w h =
    read-write_fields w.version w.region_id w.server_public w.server_disco_public w.preshared_key
      w.region (ground arith) (ground arith) (ground arith)

abbrev pub coding : Encoding Key Key
coding = record {
  marshal = write;
  unmarshal = read;
  to_base64 = λ x. x;
  from_base64 = λ x. some x;
  sprint = λ n. n ∷ [];
  is_plain = plain;
  unmarshal-marshal = read-write;
  from_base64-to_base64 = λ x. refl;
}

abbrev home : ConnInfo Key Key
home = record {
  server_public = key_of 1;
  server_disco_public = key_of 2;
  preshared_key = replicate 32 9;
  region = [];
  region_id = 0;
}

home-plain : plain (wire_of codec coding home) ≡ true
unfolding wire_of is_zero
home-plain = refl

home-short : length (addr codec coding home) ≤ 65536
unfolding addr wire_of is_zero
home-short = omega arith

secret_set : is_zero home.preshared_key ≡ false
unfolding is_zero
secret_set = refl

parse_addr-addr_example :
    parse_addr codec codec coding (addr codec coding home)
    ≡ some (record home { region = relay_regions codec codec coding 0 [] })
parse_addr-addr_example =
    parse_addr-addr codec codec coding home refl refl secret_set home-plain home-short

parse_addr_sound_example :
    (length (addr codec coding home) ≤ 65536)
    × (has_prefix (addr codec coding home) h3_address_prefix ≡ true)
    × (codec.is_zero (key_of 1) ≡ false)
    × (codec.is_zero (key_of 2) ≡ false)
    × (is_zero (replicate 32 9) ≡ false)
parse_addr_sound_example =
    parse_addr_sound codec codec coding (addr codec coding home) home parse_addr-addr_example
