-- ===== src/Text.antt =====
-- What the program uses of Go's packages strings and strconv, on texts as lists of bytes. White space
-- is that of Unicode, in UTF-8.
pub mod HostPort
pub mod Laws
use tailcat_quic.Base.{
  ltb, leb, ◌==◌, if◌then◌else◌, ltb→lt, lt→ltb, leb→le, ==_iff, Bool-cases, Option-cases, Eq, beq,
  beq_refl, eq_of_beq, not_rejected, was_required, or-eq_false, not-eq_false, some-eq, length,
  get_elem?, get_or, take, drop, replicate, length-append, take-append-drop, length-take,
  length-drop, take-length_append, drop-length_append, take-of_length, drop-of_length,
  length-replicate, All, any, take-two_fields, take-drop-two_fields, drop-drop-two_fields,
  three_fields, drop-drop, four_fields, codes, bytes_eq, bytes_eq_sound, bytes_eq_self,
  bytes_eq_iff, slice, has_prefix, IsByte, lookup, insert, erase, lookup-insert, lookup-erase,
  length-erase-le, length-erase-present, length-insert-absent, ℕ, zero, suc, ◌+◌, ◌-◌, ◌*◌, ◌/◌,
  ◌%◌, ◌^◌, ◌≤◌, ◌<◌, max, min, compare, Ordering, ◌≡◌, refl, sym, ap, ap₂, ◌∙◌, subst, ◌≢◌, ◌↔◌,
  ◌⊎◌, inl, inr, Bool, true, false, not, ◌&&◌, ◌||◌, Option, none, some, List, [], ◌∷◌, ◌++◌, map,
  append_assoc, append-nil, arith, ℕ_discrete,
}

-- strings.Contains of one byte
unfoldable pub contains_byte : ℕ → List ℕ → Bool
contains_byte b s = any (λ c. c == b) s

-- strings.ContainsAny
unfoldable pub contains_any : List ℕ → List ℕ → Bool
unfolding contains_byte
contains_any chars s = any (λ c. contains_byte c chars) s

abbrev pub is_empty : List ℕ → Bool
is_empty [] = true
is_empty (c ∷ s) = false

-- A byte before the first part.
abbrev pub push_first : ℕ → List (List ℕ) → List (List ℕ)
push_first c [] = (c ∷ []) ∷ []
push_first c (w ∷ ws) = (c ∷ w) ∷ ws

-- strings.Split at a byte
unfoldable pub split : ℕ → List ℕ → List (List ℕ)
split sep [] = [] ∷ []
split sep (c ∷ s) = let rest = split sep s in if c == sep then [] ∷ rest else push_first c rest

-- strings.Join with a byte
unfoldable pub join : ℕ → List (List ℕ) → List ℕ
join sep [] = []
join sep (w ∷ []) = w
join sep (w ∷ (v ∷ ws)) = w ++ (sep ∷ join sep (v ∷ ws))

-- strings.Index of a byte
unfoldable pub index_byte : ℕ → List ℕ → Option ℕ
index_byte b [] = none
index_byte b (c ∷ s) = let rest = index_byte b s in if c == b then some 0 else later rest
  where
    later : Option ℕ → Option ℕ
    later none = none
    later (some n) = some (n + 1)

-- strings.LastIndex of a byte
unfoldable pub last_index_byte : ℕ → List ℕ → Option ℕ
last_index_byte b [] = none
last_index_byte b (c ∷ s) = here (last_index_byte b s)
  where
    here : Option ℕ → Option ℕ
    here none = if c == b then some 0 else none
    here (some n) = some (n + 1)

-- strings.Cut at a byte: `none` after it if the byte is not there.
unfoldable pub cut : ℕ → List ℕ → List ℕ × Option (List ℕ)
cut b [] = ([], none)
cut b (c ∷ s) = let (w, r) = cut b s in if c == b then ([], some s) else (c ∷ w, r)

-- strings.CutPrefix
unfoldable pub cut_prefix : List ℕ → List ℕ → Option (List ℕ)
cut_prefix p s = if has_prefix s p then some (drop (length p) s) else none

abbrev pub has_suffix : List ℕ → List ℕ → Bool
has_suffix p s = leb (length p) (length s) && bytes_eq (drop (length s - length p) s) p

-- strings.CutSuffix
unfoldable pub cut_suffix : List ℕ → List ℕ → Option (List ℕ)
cut_suffix p s = if has_suffix p s then some (take (length s - length p) s) else none

-- strings.TrimSuffix
unfoldable pub trim_suffix : List ℕ → List ℕ → List ℕ
unfolding cut_suffix
trim_suffix p s = elim (cut_suffix p s) [ none ↦ s | some r ↦ r ]

-- strings.ReplaceAll of one byte
unfoldable pub replace_byte : ℕ → List ℕ → List ℕ → List ℕ
replace_byte b new [] = []
replace_byte b new (c ∷ s) = (if c == b then new else c ∷ []) ++ replace_byte b new s

-- The white space of one, two and three bytes: unicode.IsSpace.
abbrev is_space : ℕ → Bool
is_space c = c == 32 || (leb 9 c && leb c 13)

abbrev is_wide_space : ℕ → ℕ → Bool
is_wide_space c d = c == 0xc2 && (d == 0x85 || d == 0xa0)

abbrev is_wider_space : ℕ → ℕ → ℕ → Bool
is_wider_space c d e =
    (c == 0xe1 && (d == 0x9a && e == 0x80))
    || ((c == 0xe2
          && ((d == 0x80 && ((leb 0x80 e && leb e 0x8a) || (e == 0xa8 || (e == 0xa9 || e == 0xaf))))
              || (d == 0x81 && e == 0x9f)))
        || (c == 0xe3 && (d == 0x80 && e == 0x80)))

-- The length of the white space that a text starts with, or 0.
abbrev pub space_length : List ℕ → ℕ
space_length [] = 0
space_length (c ∷ []) = if is_space c then 1 else 0
space_length (c ∷ (d ∷ [])) = if is_space c then 1 else if is_wide_space c d then 2 else 0
space_length (c ∷ (d ∷ (e ∷ s))) =
    if is_space c then 1 else if is_wide_space c d then 2 else if is_wider_space c d e then 3 else 0

-- The text, or what follows its first byte if that starts white space.
abbrev trim_step : List ℕ → ℕ → (ℕ → List ℕ) → List ℕ
trim_step s zero after = s
trim_step s (suc more) after = after more

-- strings.TrimLeft of white space, after some more bytes of it.
unfoldable pub trim_from : ℕ → List ℕ → List ℕ
trim_from more [] = []
trim_from (suc more) (c ∷ s) = trim_from more s
trim_from zero (c ∷ s) = trim_step (c ∷ s) (space_length (c ∷ s)) (λ more. trim_from more s)

unfoldable pub trim_left : List ℕ → List ℕ
unfolding trim_from
trim_left s = trim_from 0 s

-- strings.TrimRight of the bytes of a class
unfoldable pub trim_right : (ℕ → Bool) → List ℕ → List ℕ
trim_right p [] = []
trim_right p (c ∷ s) = let rest = trim_right p s in if p c && is_empty rest then [] else c ∷ rest

unfoldable pub trim_end : List ℕ → List ℕ
unfolding trim_left
trim_end [] = []
trim_end (c ∷ s) = let rest = c ∷ trim_end s in if is_empty (trim_left (c ∷ s)) then [] else rest

-- strings.TrimSpace
unfoldable pub trim_space : List ℕ → List ℕ
unfolding trim_left trim_end
trim_space s = trim_end (trim_left s)

abbrev pub is_digit : ℕ → Bool
is_digit c = leb 48 c && leb c 57

-- The regular expression ^\d+$
unfoldable pub is_digits : List ℕ → Bool
is_digits [] = false
is_digits (c ∷ []) = is_digit c
is_digits (c ∷ (d ∷ s)) = is_digit c && is_digits (d ∷ s)

-- The decimal number of a text of digits, after those already read.
unfoldable pub decimal : ℕ → List ℕ → Option ℕ
decimal n [] = some n
decimal n (c ∷ s) = let rest = decimal (n * 10 + (c - 48)) s in if is_digit c then rest else none

abbrev pub below : ℕ → Option ℕ → Option ℕ
below limit none = none
below limit (some n) = if ltb n limit then some n else none

-- strconv.ParseUint(s, 10, 16)
unfoldable pub parse_uint16 : List ℕ → Option ℕ
unfolding decimal
parse_uint16 [] = none
parse_uint16 (c ∷ s) = below 65536 (decimal 0 (c ∷ s))

unfoldable pub digits : ℕ → ℕ → List ℕ → List ℕ
digits zero n acc = acc
digits (suc f) n acc =
    let rest = digits f (n / 10) ((48 + n % 10) ∷ acc) in if ltb n 10 then (48 + n) ∷ acc else rest

-- strconv.FormatUint(n, 10) of a 64-bit number, which has 20 digits at most
unfoldable pub format_uint : ℕ → List ℕ
unfolding digits
format_uint n = digits 20 n []
