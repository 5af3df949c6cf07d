-- ===== src/Cli/Ports.antt =====
-- parsePortSet of cmd/tailcat/tailcat.go.
use tailcat_quic.Base.{
  ltb, if◌then◌else◌, codes, bytes_eq, ℕ, ◌+◌, ◌-◌, ◌≡◌, refl, Bool, true, false, not, ◌&&◌, ◌||◌,
  Option, none, some, List, [], ◌∷◌,
}
use tailcat_quic.Results.{Result, ok, err, ◌>>=◌}
use tailcat_quic.Text.{split, trim_space, cut, is_digits, parse_uint16}
use tailcat_quic.Cli.{Services, no_services, PortSet, add_port, add_ports}

pub data PortError : Type 0 where
  no_ssh_support : PortError
  unknown_service bad_port : List ℕ → PortError

abbrev pub Parsed : Type 0
Parsed = PortSet × Services

-- The switch on the name of a service; `none` for another text.
unfoldable pub named_service : List ℕ → Services → Option Services
named_service r v =
    if bytes_eq r (codes "ssh")
    then some (record v { ssh = true })
    else if bytes_eq r (codes "no-auth-ssh")
    then some (record v { no_auth_ssh = true })
    else if bytes_eq r (codes "files")
    then some (record v { files = true })
    else if bytes_eq r (codes "exit-node")
    then some (record v { exit_node = true })
    else if bytes_eq r (codes "exec")
    then some (record v { exec = true })
    else none

-- The names that need SSH support in the binary.
abbrev pub is_ssh_name : List ℕ → Bool
is_ssh_name r =
    bytes_eq r (codes "ssh") || (bytes_eq r (codes "no-auth-ssh") || bytes_eq r (codes "files"))

-- portRangeRx, ^\d+-\d+$
unfoldable pub is_port_range : List ℕ → Bool
is_port_range r =
    let (a, rest) = cut b'-' r in elim rest [ none ↦ false | some b ↦ is_digits a && is_digits b ]

abbrev pub parse_port : List ℕ → Result PortError ℕ
parse_port s = elim (parse_uint16 s) [ none ↦ err (bad_port s) | some p ↦ ok p ]

-- The ports from the lower to the higher bound.
unfoldable pub add_between : ℕ → ℕ → PortSet → PortSet
add_between lo hi s =
    if ltb hi lo then add_ports (lo + 1 - hi) hi s else add_ports (hi + 1 - lo) lo s

-- An element of digits, or of two numbers and a dash.
unfoldable pub add_numbered : List ℕ × Option (List ℕ) → PortSet → Result PortError PortSet
unfolding add_between
add_numbered (a, none) s = do lo ← parse_port a; ok (add_between lo lo s)
add_numbered (a, some b) s = do lo ← parse_port a; hi ← parse_port b; ok (add_between lo hi s)

-- What the regular expressions let through, for a text that names no service.
unfoldable pub parse_numbered : List ℕ → Parsed → Result PortError Parsed
unfolding is_port_range add_numbered
parse_numbered r (s, v) =
    if not (is_digits r) && not (is_port_range r)
    then err (unknown_service r)
    else (do t ← add_numbered (cut b'-' r) s; ok (t, v))

unfoldable pub service_or_number : List ℕ → Option Services → Parsed → Result PortError Parsed
unfolding parse_numbered
service_or_number r (some w) (s, v) = ok (s, w)
service_or_number r none acc = parse_numbered r acc

-- One element of the list, its white space trimmed.
unfoldable pub parse_element : Bool → List ℕ → Parsed → Result PortError Parsed
unfolding named_service service_or_number
parse_element ssh_enabled r (s, v) =
    if bytes_eq r (codes "all")
    then ok (add_ports 65535 1 s, v)
    else if is_ssh_name r && not ssh_enabled
    then err no_ssh_support
    else service_or_number r (named_service r v) (s, v)

unfoldable pub parse_elements : Bool → List (List ℕ) → Parsed → Result PortError Parsed
unfolding parse_element
parse_elements ssh_enabled [] acc = ok acc
parse_elements ssh_enabled (r ∷ rs) acc =
    parse_element ssh_enabled (trim_space r) acc >>= parse_elements ssh_enabled rs

-- parsePortSet; a nil set is empty.
unfoldable pub parse_port_set : Bool → List ℕ → Result PortError Parsed
unfolding parse_elements
parse_port_set ssh_enabled [] = ok ([], no_services)
parse_port_set ssh_enabled (c ∷ s) =
    parse_elements ssh_enabled (split b',' (trim_space (c ∷ s))) ([], no_services)

ssh_and_ports :
    parse_port_set true (codes " ssh, 8-5,7,22 ")
    ≡ ok (5 ∷ 6 ∷ 7 ∷ 8 ∷ 22 ∷ [], record no_services { ssh = true })
unfolding parse_port_set split trim_space is_digits parse_uint16 cut add_port add_ports
ssh_and_ports = refl

bad : parse_port_set true (codes "80,x-1") ≡ err (unknown_service (codes "x-1"))
unfolding parse_port_set split trim_space is_digits parse_uint16 cut add_port add_ports
bad = refl

too_big : parse_port_set true (codes "80-65536") ≡ err (bad_port (codes "65536"))
unfolding parse_port_set split trim_space is_digits parse_uint16 cut add_port add_ports
too_big = refl
