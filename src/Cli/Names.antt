-- ===== src/Cli/Names.antt =====
-- tailcatAddrArg, classifyTailcatAddrArg and validateDNSName of cmd/tailcat/tailcat.go, and
-- validatedAddr of cmd/tailcat/ssh.go. The lookup of TXT records is a parameter.
pub mod Leaks
use tailcat_quic.Base.{
  ltb, leb, ◌==◌, if◌then◌else◌, ltb→lt, lt→ltb, leb→le, ==_iff, Bool-cases, Option-cases, Eq, beq,
  beq_refl, eq_of_beq, not_rejected, was_required, or-eq_false, not-eq_false, some-eq, length,
  get_elem?, get_or, take, drop, replicate, length-append, take-append-drop, length-take,
  length-drop, take-length_append, drop-length_append, take-of_length, drop-of_length,
  length-replicate, All, any, take-two_fields, take-drop-two_fields, drop-drop-two_fields,
  three_fields, drop-drop, four_fields, codes, bytes_eq, bytes_eq_sound, bytes_eq_self,
  bytes_eq_iff, slice, has_prefix, IsByte, lookup, insert, erase, lookup-insert, lookup-erase,
  length-erase-le, length-erase-present, length-insert-absent, ℕ, zero, suc, ◌+◌, ◌-◌, ◌*◌, ◌/◌,
  ◌%◌, ◌^◌, ◌≤◌, ◌<◌, max, min, compare, Ordering, ◌≡◌, refl, sym, ap, ap₂, ◌∙◌, subst, ◌≢◌, ◌↔◌,
  ◌⊎◌, inl, inr, Bool, true, false, not, ◌&&◌, ◌||◌, Option, none, some, List, [], ◌∷◌, ◌++◌, map,
  append_assoc, append-nil, arith, ℕ_discrete,
}
use tailcat_quic.Results.{Result, ok, err, ◌>>=◌, ◌>>◌, reject}
use tailcat_quic.Text.{contains_byte, split, trim_suffix, trim_space, cut_prefix}
use tailcat_quic.Keys.{KeyCodec}
use tailcat_quic.Address.{ConnInfo, Encoding, h3_address_prefix}
use tailcat_quic.Address.Parse.{parse_addr}

pub data DnsError : Type 0 where
  empty_name long_name empty_label long_label hyphen : DnsError
  invalid_character : ℕ → DnsError

abbrev pub is_name_character : ℕ → Bool
is_name_character c =
    (leb 97 c && leb c 122) || ((leb 65 c && leb c 90) || ((leb 48 c && leb c 57) || c == 45))

-- The loop over the bytes of a label.
unfoldable pub check_characters : List ℕ → Result DnsError (Unit {0})
check_characters [] = ok tt
check_characters (c ∷ s) =
    let rest = check_characters s in if is_name_character c then rest else err (invalid_character c)

-- The loop over the labels, one label that is not empty.
unfoldable pub check_label : List ℕ → Result DnsError (Unit {0})
unfolding check_characters
check_label label = do
  reject (ltb 63 (length label)) long_label
  reject (get_or label 0 0 == 45 || get_or label (length label - 1) 0 == 45) hyphen
  check_characters label

unfoldable pub check_labels : List (List ℕ) → Result DnsError (Unit {0})
unfolding check_label
check_labels [] = ok tt
check_labels ([] ∷ rest) = err empty_label
check_labels ((c ∷ s) ∷ rest) = check_label (c ∷ s) >> check_labels rest

-- validateDNSName
unfoldable pub validate_dns_name : List ℕ → Result DnsError (Unit {0})
unfolding check_labels
validate_dns_name [] = err empty_name
validate_dns_name (c ∷ s) =
    reject (ltb 253 (length (c ∷ s))) long_name >> check_labels (split b'.' (c ∷ s))

pub data NameError : Type 0 where
  neither resembles_credential contains_address : NameError
  invalid_name : DnsError → NameError

-- What an argument names: an address, or a DNS name to look up.
pub data Named : Type 0 where
  an_address dns_name : List ℕ → Named

-- What tailcatAddrArg did: the name that it looked up, if any, and the address, or `none` for
-- log.Fatal.
pub record Looked : Type 0 where
  pub queried : Option (List ℕ)
  pub address : Option (List ℕ)

-- What validatedAddr did: the name looked up, and the address with whether a DNS name gave it.
pub record Validated : Type 0 where
  pub queried : Option (List ℕ)
  pub result : Option (List ℕ × Bool)

abbrev pub is_given {ℓ} : {A : Type ℓ} → Option A → Bool
is_given none = false
is_given (some a) = true

abbrev pub valid_name : List ℕ → Result DnsError (Unit {0}) → Result NameError Named
valid_name arg (ok _) = ok (dns_name arg)
valid_name arg (err e) = err (invalid_name e)

-- The first record with a "tailcat=" prefix, without it and its white space.
unfoldable pub txt_address : List (List ℕ) → Option (List ℕ)
txt_address [] = none
txt_address (t ∷ ts) = elim (cut_prefix (codes "tailcat=") t) [
  | none ↦ txt_address ts
  | some suf ↦ some (trim_space suf)
]

abbrev pub in_records : Option (List (List ℕ)) → Option (List ℕ)
in_records none = none
in_records (some txts) = txt_address txts

module _ {N D : Type 0} (node : KeyCodec N) (disco : KeyCodec D) (coding : Encoding N D) where
  -- tailcat.ParseAddr(text) succeeds
  unfoldable pub is_addr : List ℕ → Bool
  is_addr text = is_given (parse_addr node disco coding text)

  -- The loop over the labels of classifyTailcatAddrArg
  unfoldable pub refuse_credentials : List (List ℕ) → Result NameError (Unit {0})
  unfolding is_addr
  refuse_credentials [] = ok tt
  refuse_credentials (label ∷ rest) = do
    reject (has_prefix label h3_address_prefix && ltb 20 (length label)) resembles_credential
    reject (is_addr label) contains_address
    refuse_credentials rest

  -- classifyTailcatAddrArg
  unfoldable pub classify_tailcat_addr_arg : List ℕ → Result NameError Named
  unfolding is_addr refuse_credentials validate_dns_name
  classify_tailcat_addr_arg arg =
      if is_addr arg
      then ok (an_address arg)
      else if not (contains_byte b'.' arg)
      then err neither
      else (do
        refuse_credentials (split b'.' (trim_suffix (codes ".") arg))
        valid_name arg (validate_dns_name (trim_suffix (codes ".") arg)))

  -- The check at the end of validatedAddr, on what tailcatAddrArg returned.
  abbrev pub checked : Bool → Option (List ℕ) → Option (List ℕ × Bool)
  checked via_dns none = none
  checked via_dns (some a) = if is_addr a then some (a, via_dns) else none

  module _ (lookup_txt : List ℕ → Option (List (List ℕ))) where
    unfoldable pub look_up : Result NameError Named → Looked
    unfolding txt_address
    look_up (err e) = record { queried = none; address = none }
    look_up (ok (an_address a)) = record { queried = none; address = some a }
    look_up (ok (dns_name n)) = record { queried = some n; address = in_records (lookup_txt n) }

    -- tailcatAddrArg
    unfoldable pub tailcat_addr_arg : List ℕ → Looked
    unfolding look_up classify_tailcat_addr_arg
    tailcat_addr_arg arg = look_up (classify_tailcat_addr_arg arg)

    -- The end of validatedAddr, for an argument with or without a dot.
    unfoldable pub validate_named : Bool → List ℕ → Looked → Validated
    unfolding is_addr
    validate_named true arg l = record { queried = l.queried; result = checked true l.address }
    validate_named false arg l = record { queried = none; result = checked false (some arg) }

    -- validatedAddr
    unfoldable pub validated_addr : List ℕ → Validated
    unfolding tailcat_addr_arg validate_named
    validated_addr arg = validate_named (contains_byte b'.' arg) arg (tailcat_addr_arg arg)
