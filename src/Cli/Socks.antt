-- ===== src/Cli/Socks.antt =====
-- normalizeListenAddrPort, classifySOCKSAddr and dialSOCKSTarget of cmd/tailcat/tailcat.go. Parsing an IP
-- address and resolving a host name are parameters.
pub mod Targets
use tailcat_quic.Base.{
  ltb, leb, ◌==◌, if◌then◌else◌, ltb→lt, lt→ltb, leb→le, ==_iff, Bool-cases, Option-cases, Eq, beq,
  beq_refl, eq_of_beq, not_rejected, was_required, or-eq_false, not-eq_false, some-eq, length,
  get_elem?, get_or, take, drop, replicate, length-append, take-append-drop, length-take,
  length-drop, take-length_append, drop-length_append, take-of_length, drop-of_length,
  length-replicate, All, any, take-two_fields, take-drop-two_fields, drop-drop-two_fields,
  three_fields, drop-drop, four_fields, codes, bytes_eq, bytes_eq_sound, bytes_eq_self,
  bytes_eq_iff, slice, has_prefix, IsByte, lookup, insert, erase, lookup-insert, lookup-erase,
  length-erase-le, length-erase-present, length-insert-absent, ℕ, zero, suc, ◌+◌, ◌-◌, ◌*◌, ◌/◌,
  ◌%◌, ◌^◌, ◌≤◌, ◌<◌, max, min, compare, Ordering, ◌≡◌, refl, sym, ap, ap₂, ◌∙◌, subst, ◌≢◌, ◌↔◌,
  ◌⊎◌, inl, inr, Bool, true, false, not, ◌&&◌, ◌||◌, Option, none, some, List, [], ◌∷◌, ◌++◌, map,
  append_assoc, append-nil, arith, ℕ_discrete,
}
use tailcat_quic.Text.{contains_byte, parse_uint16, format_uint, is_empty}
use tailcat_quic.Text.HostPort.{split_host_port, join_host_port}
use tailcat_quic.NetAddr.{Addr, v4, v6, AddrPort}

abbrev pub or_zero : List ℕ → List ℕ
or_zero port = if is_empty port then codes "0" else port

abbrev bare_port : List ℕ → Option ℕ → List ℕ
bare_port s (some port) = join_host_port (codes "127.0.0.1") (format_uint port)
bare_port s none = s ++ codes ":0"

abbrev split_or_bare : List ℕ → Option (List ℕ × List ℕ) → List ℕ
split_or_bare s (some (host, port)) = join_host_port host (or_zero port)
split_or_bare s none = bare_port s (parse_uint16 s)

-- normalizeListenAddrPort
unfoldable pub normalize_listen_addr_port : List ℕ → List ℕ
unfolding split_host_port join_host_port parse_uint16 format_uint
normalize_listen_addr_port s = split_or_bare s (split_host_port s)

-- socksTarget: the server of the command line, the server that an address names, or a destination
-- behind the exit node.
pub data SocksTarget : Type 0 where
  to_server : (port : ℕ) → SocksTarget
  to_addr : (addr : List ℕ) (port : ℕ) → SocksTarget
  to_dst : AddrPort → SocksTarget

-- netip.Addr.Unmap and Is4
abbrev pub unmap : Addr → Addr
unmap (v4 n) = v4 n
unmap (v6 n) = if n / 2 ^ 32 == 0xffff then v4 (n % 2 ^ 32) else v6 n

abbrev pub is_v4 : Addr → Bool
is_v4 (v4 n) = true
is_v4 (v6 n) = false

-- The first address that is IPv4, or the one given.
unfoldable pub prefer_v4 : Addr → List Addr → Addr
prefer_v4 ip [] = ip
prefer_v4 ip (a ∷ rest) = let later = prefer_v4 ip rest in if is_v4 (unmap a) then a else later

-- The choice among the addresses of a host name.
unfoldable pub choose_ip : Option (List Addr) → Option Addr
unfolding prefer_v4
choose_ip none = none
choose_ip (some []) = none
choose_ip (some (a ∷ rest)) = some (prefer_v4 a (a ∷ rest))

module _ (parses : List ℕ → Bool) (parse_ip : List ℕ → Option Addr)
    (lookup_ip : List ℕ → Option (List Addr)) where
  abbrev exit_to : ℕ → Option Addr → Option SocksTarget
  exit_to port none = none
  exit_to port (some ip) = some (to_dst (record { addr = unmap ip; port = port }))

  abbrev literal_or_looked_up : List ℕ → Option Addr → Option Addr
  literal_or_looked_up host (some ip) = some ip
  literal_or_looked_up host none = choose_ip (lookup_ip host)

  -- classifySOCKSAddr for a host and a port; `parses` is that tailcat.ParseAddr succeeds.
  unfoldable pub classify_host : List ℕ → ℕ → Option SocksTarget
  unfolding choose_ip
  classify_host host port =
      if bytes_eq host (codes "server.tailcat") || is_empty host
      then some (to_server port)
      else if has_prefix host (codes "tc") && (not (contains_byte b'.' host) && parses host)
      then some (to_addr host port)
      else exit_to port (literal_or_looked_up host (parse_ip host))

  abbrev with_port : List ℕ → Option ℕ → Option SocksTarget
  with_port host none = none
  with_port host (some port) = classify_host host port

  abbrev split_parts : Option (List ℕ × List ℕ) → Option SocksTarget
  split_parts none = none
  split_parts (some (host, port)) = with_port host (parse_uint16 port)

  -- classifySOCKSAddr; `none` is an error.
  unfoldable pub classify_socks_addr : List ℕ → Option SocksTarget
  unfolding classify_host split_host_port parse_uint16
  classify_socks_addr addr = split_parts (split_host_port addr)

-- The dial that dialSOCKSTarget makes, with the client of the command line or of an address.
pub data Dial : Type 0 where
  client_port : (udp : Bool) (port : ℕ) → Dial
  client_dst : (udp : Bool) → AddrPort → Dial
  addr_port : (udp : Bool) (addr : List ℕ) (port : ℕ) → Dial
  no_client : Dial

-- dialSOCKSTarget; `has_client` is that a tailcat address argument was given.
unfoldable pub dial_socks_target : List ℕ → Bool → SocksTarget → Dial
dial_socks_target network has_client (to_addr addr port) =
    addr_port (bytes_eq network (codes "udp")) addr port
dial_socks_target network has_client (to_server port) =
    if has_client then client_port (bytes_eq network (codes "udp")) port else no_client
dial_socks_target network has_client (to_dst dst) =
    if has_client then client_dst (bytes_eq network (codes "udp")) dst else no_client
