-- ===== src/LocalDns.antt =====
-- internal/localhostdns: the DNS server inside the process, which answers localhost names only. The
-- package dnsmessage is a parameter; names are ASCII.
pub mod Frames
use tailcat_quic.Base.{
  ltb, leb, ◌==◌, if◌then◌else◌, ltb→lt, lt→ltb, leb→le, ==_iff, Bool-cases, Option-cases, Eq, beq,
  beq_refl, eq_of_beq, not_rejected, was_required, or-eq_false, not-eq_false, some-eq, length,
  get_elem?, get_or, take, drop, replicate, length-append, take-append-drop, length-take,
  length-drop, take-length_append, drop-length_append, take-of_length, drop-of_length,
  length-replicate, All, any, take-two_fields, take-drop-two_fields, drop-drop-two_fields,
  three_fields, drop-drop, four_fields, codes, bytes_eq, bytes_eq_sound, bytes_eq_self,
  bytes_eq_iff, slice, has_prefix, IsByte, lookup, insert, erase, lookup-insert, lookup-erase,
  length-erase-le, length-erase-present, length-insert-absent, ℕ, zero, suc, ◌+◌, ◌-◌, ◌*◌, ◌/◌,
  ◌%◌, ◌^◌, ◌≤◌, ◌<◌, max, min, compare, Ordering, ◌≡◌, refl, sym, ap, ap₂, ◌∙◌, subst, ◌≢◌, ◌↔◌,
  ◌⊎◌, inl, inr, Bool, true, false, not, ◌&&◌, ◌||◌, Option, none, some, List, [], ◌∷◌, ◌++◌, map,
  append_assoc, append-nil, arith, ℕ_discrete,
}
use tailcat_quic.Text.{has_suffix}

-- dnsmessage.Question, the fields that the code reads.
pub record Question : Type 0 where
  pub name : List ℕ
  pub type : ℕ

-- dnsmessage.Header, the fields that the code sets.
pub record Header : Type 0 where
  pub id : ℕ
  pub response : Bool
  pub authoritative : Bool
  pub r_code : ℕ

-- An answer of class INET: its name, its time to live and its address.
pub data Resource : Type 0 where
  a_resource aaaa_resource : (name : List ℕ) (ttl : ℕ) (address : List ℕ) → Resource

-- What the code calls of dnsmessage: reading the header's ID and the first question, and building a
-- message.
pub record Messages : Type 0 where
  pub start : List ℕ → Option ℕ
  pub question : List ℕ → Option Question
  pub build : Header → Question → List Resource → Option (List ℕ)

abbrev pub r_code_success : ℕ
r_code_success = 0

abbrev pub r_code_name_error : ℕ
r_code_name_error = 3

abbrev pub type_a : ℕ
type_a = 1

abbrev pub type_aaaa : ℕ
type_aaaa = 28

unfoldable pub to_lower : List ℕ → List ℕ
to_lower [] = []
to_lower (c ∷ s) = (if leb b'A' c && leb c b'Z' then c + 32 else c) ∷ to_lower s

-- isLocalhost
unfoldable pub is_localhost : List ℕ → Bool
unfolding to_lower
is_localhost name =
    let n = to_lower name in bytes_eq n (codes "localhost.") || has_suffix (codes ".localhost.") n

-- The switch on the type of the question.
unfoldable pub loopback_answers : Question → List Resource
loopback_answers q =
    if q.type == type_a
    then a_resource q.name 600 (127 ∷ (0 ∷ (0 ∷ (1 ∷ [])))) ∷ []
    else if q.type == type_aaaa
    then aaaa_resource q.name 600 (replicate 15 0 ++ (1 ∷ [])) ∷ []
    else []

-- The length prefix of the TCP framing, which is a uint16.
unfoldable pub frame : List ℕ → List ℕ
frame msg = let n = length msg % 65536 in (n / 256) ∷ ((n % 256) ∷ msg)

-- The two calls of io.ReadFull: a query and what follows it.
unfoldable pub read_query : List ℕ → Option (List ℕ × List ℕ)
read_query [] = none
read_query (h ∷ []) = none
read_query (h ∷ (l ∷ s)) =
    if ltb (length s) (h * 256 + l) then none else some (take (h * 256 + l) s, drop (h * 256 + l) s)

module _ (dns : Messages) where
  unfoldable pub header : ℕ → Question → Header
  unfolding is_localhost
  header id q = record {
    id = id;
    response = true;
    authoritative = true;
    r_code = if is_localhost q.name then r_code_success else r_code_name_error;
  }

  abbrev framed : Option (List ℕ) → Option (List ℕ)
  framed none = none
  framed (some msg) = some (frame msg)

  abbrev reply : Option ℕ → Option Question → Option (List ℕ)
  reply (some id) (some q) = framed (
      dns.build (header id q) q
        (if (header id q).r_code == r_code_success then loopback_answers q else []))
  reply _ _ = none

  -- answer
  unfoldable pub answer : List ℕ → Option (List ℕ)
  unfolding header loopback_answers frame
  answer query = reply (dns.start query) (dns.question query)

  -- A query is answered, and the loop goes on with what follows it.
  unfoldable pub serve_query : (List ℕ → List ℕ) → List ℕ → Option (List ℕ) → List ℕ
  serve_query again rest none = []
  serve_query again rest (some resp) = resp ++ again rest

  unfoldable pub serve_round : (List ℕ → List ℕ) → Option (List ℕ × List ℕ) → List ℕ
  unfolding serve_query answer
  serve_round again none = []
  serve_round again (some (query, rest)) = serve_query again rest (answer query)

  -- The loop of serve, on the bytes that the resolver sends: what is written. The resolver reads
  -- every response.
  unfoldable pub serve_loop : ℕ → List ℕ → List ℕ
  unfolding read_query serve_round
  serve_loop zero s = []
  serve_loop (suc rounds) s = serve_round (serve_loop rounds) (read_query s)

  -- serve: a round takes two bytes at least.
  unfoldable pub serve : List ℕ → List ℕ
  unfolding serve_loop
  serve s = serve_loop (length s + 1) s
