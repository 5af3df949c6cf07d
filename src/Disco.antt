-- ===== src/Disco.antt =====
-- disco.go: the legacy meow packets, raw DERP packets behind a 4-byte magic.
pub mod RoundTrip
use tailcat_quic.Base.{
  ℕ, ◌+◌, Bool, true, false, List, [], ◌∷◌, ◌++◌, ◌&&◌, Option, none, some, length, take, slice,
  get_or, codes, bytes_eq, leb, ltb, ◌==◌, if◌then◌else◌,
}
use tailcat_quic.Keys.{KeyCodec}

abbrev pub meow_magic : List ℕ
meow_magic = codes "meow"

abbrev pub meow_type_ping : ℕ
meow_type_ping = 0x01

abbrev pub meow_type_pong : ℕ
meow_type_pong = 0x02

-- key.NodePublicRawLen and key.DiscoPublicRawLen
abbrev pub raw_len : ℕ
raw_len = 32

unfoldable pub is_meow_packet : List ℕ → Bool
is_meow_packet pkt = leb 4 (length pkt) && bytes_eq (take 4 pkt) meow_magic

pub encode_meowed : List ℕ
encode_meowed = meow_magic ++ meow_type_pong ∷ []

pub is_meowed_packet : List ℕ → Bool
is_meowed_packet pkt =
    leb 5 (length pkt) && (bytes_eq (take 4 pkt) meow_magic && get_or pkt 4 0 == meow_type_pong)

module _ {N D : Type 0} (node : KeyCodec N) (disco : KeyCodec D) where
  unfoldable pub encode_meow_ping : N → D → List ℕ
  encode_meow_ping node_key disco_key =
      meow_magic ++ meow_type_ping ∷ (node.raw node_key ++ disco.raw disco_key)

  -- `none` is `ok == false`. The caller has checked the magic by `is_meow_packet`.
  unfoldable pub parse_meow_ping : List ℕ → Option (N × D)
  parse_meow_ping pkt =
      if ltb (length pkt) (4 + 1 + raw_len + raw_len)
      then none
      else if get_or pkt 4 0 == meow_type_ping
      then (let disco_key = disco.from_raw (slice pkt (5 + raw_len) (5 + raw_len + raw_len)) in
          if disco.is_zero disco_key
          then none
          else some (node.from_raw (slice pkt 5 (5 + raw_len)), disco_key))
      else none
