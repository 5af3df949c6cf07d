-- ===== src/Text/HostPort.antt =====
-- net.SplitHostPort and net.JoinHostPort.
use tailcat_quic.Base.{
  ◌==◌, if◌then◌else◌, get_or, take, drop, codes, slice, ℕ, ◌+◌, ◌≡◌, refl, ◌||◌, Option, none,
  some, List, ◌∷◌, ◌++◌,
}
use tailcat_quic.Text.{contains_byte, index_byte, last_index_byte}

-- The host before the last colon, and where the searches for stray brackets start; `none` is an error.
abbrev pub bracketed : List ℕ → ℕ → Option ℕ → Option (List ℕ × ℕ × ℕ)
bracketed s i none = none
bracketed s i (some e) = if e + 1 == i then some (slice s 1 e, 1, e + 1) else none

unfoldable pub split_host : List ℕ → ℕ → Option (List ℕ × ℕ × ℕ)
split_host s i =
    if get_or s 0 0 == b'['
    then bracketed s i (index_byte b']' s)
    else if contains_byte b':' (take i s)
    then none
    else some (take i s, 0, 0)

abbrev no_brackets : List ℕ → ℕ → Option (List ℕ × ℕ × ℕ) → Option (List ℕ × List ℕ)
no_brackets s i none = none
no_brackets s i (some (host, j, k)) =
    if contains_byte b'[' (drop j s) || contains_byte b']' (drop k s)
    then none
    else some (host, drop (i + 1) s)

abbrev at_colon : List ℕ → Option ℕ → Option (List ℕ × List ℕ)
at_colon s none = none
at_colon s (some i) = no_brackets s i (split_host s i)

-- net.SplitHostPort
unfoldable pub split_host_port : List ℕ → Option (List ℕ × List ℕ)
unfolding split_host contains_byte index_byte last_index_byte
split_host_port s = at_colon s (last_index_byte b':' s)

-- net.JoinHostPort
unfoldable pub join_host_port : List ℕ → List ℕ → List ℕ
unfolding contains_byte
join_host_port host port =
    if contains_byte b':' host
    then b'[' ∷ (host ++ (b']' ∷ (b':' ∷ port)))
    else host ++ (b':' ∷ port)

split_v6 : split_host_port (codes "[::1]:80") ≡ some (codes "::1", codes "80")
unfolding split_host_port
split_v6 = refl

split_plain : split_host_port (codes "localhost:80") ≡ some (codes "localhost", codes "80")
unfolding split_host_port
split_plain = refl

split_none : split_host_port (codes "1080") ≡ none
unfolding split_host_port
split_none = refl
