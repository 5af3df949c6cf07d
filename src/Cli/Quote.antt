-- ===== src/Cli/Quote.antt =====
-- proxyCommandJoinUnix, proxyCommandJoinWindows, quoteWindowsCommandArg and sshProxyCommand of
-- cmd/tailcat/ssh.go.
pub mod Shell
pub mod RoundTrip
use tailcat_quic.Base.{
  ltb, leb, ◌==◌, if◌then◌else◌, ltb→lt, lt→ltb, leb→le, ==_iff, Bool-cases, Option-cases, Eq, beq,
  beq_refl, eq_of_beq, not_rejected, was_required, or-eq_false, not-eq_false, some-eq, length,
  get_elem?, get_or, take, drop, replicate, length-append, take-append-drop, length-take,
  length-drop, take-length_append, drop-length_append, take-of_length, drop-of_length,
  length-replicate, All, any, take-two_fields, take-drop-two_fields, drop-drop-two_fields,
  three_fields, drop-drop, four_fields, codes, bytes_eq, bytes_eq_sound, bytes_eq_self,
  bytes_eq_iff, slice, has_prefix, IsByte, lookup, insert, erase, lookup-insert, lookup-erase,
  length-erase-le, length-erase-present, length-insert-absent, ℕ, zero, suc, ◌+◌, ◌-◌, ◌*◌, ◌/◌,
  ◌%◌, ◌^◌, ◌≤◌, ◌<◌, max, min, compare, Ordering, ◌≡◌, refl, sym, ap, ap₂, ◌∙◌, subst, ◌≢◌, ◌↔◌,
  ◌⊎◌, inl, inr, Bool, true, false, not, ◌&&◌, ◌||◌, Option, none, some, List, [], ◌∷◌, ◌++◌, map,
  append_assoc, append-nil, arith, ℕ_discrete,
}
use tailcat_quic.Text.{contains_any, replace_byte, join, trim_right, is_empty}

-- `'"'"'`
abbrev pub quoted_quote : List ℕ
quoted_quote = 39 ∷ 34 ∷ 39 ∷ 34 ∷ 39 ∷ []

-- One argument of the loop, its control characters already checked.
unfoldable pub quote_unix : List ℕ → List ℕ
quote_unix arg =
    39 ∷ (replace_byte 39 quoted_quote (replace_byte b'%' (codes "%%") arg) ++ (39 ∷ []))

-- \r, \n and NUL
abbrev pub control_characters : List ℕ
control_characters = 13 ∷ 10 ∷ 0 ∷ []

abbrev pub cons_quoted : List ℕ → Option (List (List ℕ)) → Option (List (List ℕ))
cons_quoted q none = none
cons_quoted q (some qs) = some (q ∷ qs)

-- All arguments quoted, or `none` if one has a refused character.
unfoldable pub quote_all : List ℕ → (List ℕ → List ℕ) → List (List ℕ) → Option (List (List ℕ))
quote_all refused quote [] = some []
quote_all refused quote (a ∷ rest) =
    let quoted = cons_quoted (quote a) (quote_all refused quote rest) in
    if contains_any refused a then none else quoted

abbrev pub joined : Option (List (List ℕ)) → Option (List ℕ)
joined none = none
joined (some qs) = some (join 32 qs)

-- proxyCommandJoinUnix
unfoldable pub proxy_command_join_unix : List (List ℕ) → Option (List ℕ)
unfolding quote_all quote_unix
proxy_command_join_unix args = joined (quote_all control_characters quote_unix args)

-- quoteWindowsCommandArg
unfoldable pub quote_windows_command_arg : List ℕ → List ℕ
quote_windows_command_arg arg =
    34
    ∷ (arg
        ++ (replicate (length arg - length (trim_right (λ c. c == b'\\') arg)) b'\\' ++ (34 ∷ [])))

-- Double quote, %, ! and the control characters
abbrev pub unsafe_for_cmd : List ℕ
unsafe_for_cmd = 34 ∷ 37 ∷ 33 ∷ control_characters

-- proxyCommandJoinWindows
unfoldable pub proxy_command_join_windows : List (List ℕ) → Option (List ℕ)
unfolding quote_all quote_windows_command_arg
proxy_command_join_windows args = joined (quote_all unsafe_for_cmd quote_windows_command_arg args)

abbrev pub flag_unless : Bool → List ℕ → List (List ℕ)
flag_unless true flag = []
flag_unless false flag = flag ∷ []

-- The arguments of the child that sshProxyCommand quotes.
unfoldable pub proxy_args :
    (default_url exe key_name derp_map_url addr port_or_ip_port : List ℕ) → List (List ℕ)
proxy_args default_url exe key_name derp_map_url addr port_or_ip_port =
    exe
    ∷ (flag_unless (is_empty key_name) (codes "--key=" ++ key_name)
        ++ (flag_unless (bytes_eq derp_map_url default_url) (codes "--derpmap-url=" ++ derp_map_url)
            ++ (addr ∷ (port_or_ip_port ∷ []))))

-- sshProxyCommand; `windows` says that runtime.GOOS is "windows".
unfoldable pub ssh_proxy_command :
    (windows : Bool) (default_url exe key_name derp_map_url addr port_or_ip_port : List ℕ)
    → Option (List ℕ)
unfolding proxy_command_join_unix proxy_command_join_windows proxy_args
ssh_proxy_command windows default_url exe key_name derp_map_url addr port_or_ip_port =
    let args = proxy_args default_url exe key_name derp_map_url addr port_or_ip_port in
    if windows then proxy_command_join_windows args else proxy_command_join_unix args
