-- ===== src/Address/Accepted.antt =====
-- What an accepted connection code carries.
use tailcat_quic.Base.{
  ltb, Option-cases, not_rejected, was_required, length, drop, has_prefix, ℕ, ◌≤◌, ◌≡◌, refl, subst,
  inl, inr, true, false, Option, none, some, List, arith,
}
use tailcat_quic.Keys.{KeyCodec}
use tailcat_quic.Secret.{is_zero}
use tailcat_quic.Address.{WireConnInfo, ConnInfo, Encoding, h3_address_prefix}
use tailcat_quic.Address.Parse.{
  check_wire, unmarshal_wire, parse_wire, regions_of, conn_info, parse_addr,
}

module _ {N D : Type 0} (node : KeyCodec N) (disco : KeyCodec D) (coding : Encoding N D) where
  -- A wire form that has passed the checks.
  record IsChecked (w : WireConnInfo N D) : Type 0 where
    disco_key : D
    secret : List ℕ
    has_disco : w.server_disco_public ≡ some disco_key
    has_secret : w.preshared_key ≡ some secret
    server_set : node.is_zero w.server_public ≡ false
    disco_set : disco.is_zero disco_key ≡ false
    secret_set : is_zero secret ≡ false

  IsChecked-fields :
      (version : ℕ) (n : N) (o : Option D) (p : Option (List ℕ)) (w w' : WireConnInfo N D)
      → w.version ≡ version
      → w.server_public ≡ n
      → w.server_disco_public ≡ o
      → w.preshared_key ≡ p
      → check_wire node disco coding w ≡ some w'
      → (w ≡ w') × IsChecked w
  unfolding check_wire
  IsChecked-fields version n (some d) (some q) w w' e f g h c = (
    ground (arith, g, h),
    record {
      disco_key = d;
      secret = q;
      has_disco = g;
      has_secret = h;
      server_set = ground (arith, g, h);
      disco_set = ground (arith, g, h);
      secret_set = ground (arith, g, h);
    },
  )
  IsChecked-fields version n (some d) none w w' e f g h c = absurd (ground (arith, g, h))
  IsChecked-fields version n none p w w' e f g h c = absurd (ground (arith, g, h))

  -- What parseWire returns has passed the checks, and its code has the prefix and the size.
  parse_wire-some :
      (a : List ℕ) (w : WireConnInfo N D)
      → parse_wire node disco coding a ≡ some w
      → (length a ≤ 65536) × (has_prefix a h3_address_prefix ≡ true) × IsChecked w
  unfolding parse_wire unmarshal_wire
  parse_wire-some a w h =
      let (short, h1) = not_rejected (ltb 65536 (length a)) _ h in
      let (tagged, h2) = was_required (has_prefix a h3_address_prefix) _ h1 in
      (ground (arith, short), tagged, unmarshalled (coding.from_base64 (drop 4 a)) w h2)
    where
      unmarshalled :
          (o : Option (List ℕ)) (w : WireConnInfo N D)
          → unmarshal_wire node disco coding o ≡ some w
          → IsChecked w
      unmarshalled none w h = absurd (ground arith)
      unmarshalled (some x) w h = elim (Option-cases (coding.unmarshal x)) [
        | inl e ↦ absurd (ground (arith, e))
        | inr (v, e) ↦
            let c : check_wire node disco coding v ≡ some w = ground (arith, e) in
            let (same_w, ok) =
              IsChecked-fields v.version v.server_public v.server_disco_public v.preshared_key v w
                refl refl refl refl c in
            subst IsChecked same_w ok
      ]

  conn_info-fields :
      (w : WireConnInfo N D) (ci : ConnInfo N D)
      → IsChecked w
      → conn_info node disco coding w ≡ some ci
      → (node.is_zero ci.server_public ≡ false)
        × (disco.is_zero ci.server_disco_public ≡ false)
        × (is_zero ci.preshared_key ≡ false)
  unfolding conn_info
  conn_info-fields w ci c h = elim (Option-cases (regions_of node disco coding w.region)) [
    | inl e ↦ absurd (ground (arith, e))
    | inr (rs, e) ↦
        ground (arith, e, c.has_disco, c.has_secret, c.server_set, c.disco_set, c.secret_set)
  ]

  -- Only a code of at most 64 KiB with the tch3 prefix is accepted, and what it gives has a server key,
  -- a discovery key and a connection secret that are all set.
  pub parse_addr_sound :
      (a : List ℕ) (ci : ConnInfo N D)
      → parse_addr node disco coding a ≡ some ci
      → (length a ≤ 65536)
        × (has_prefix a h3_address_prefix ≡ true)
        × (node.is_zero ci.server_public ≡ false)
        × (disco.is_zero ci.server_disco_public ≡ false)
        × (is_zero ci.preshared_key ≡ false)
  unfolding parse_addr
  parse_addr_sound a ci h = elim (Option-cases (parse_wire node disco coding a)) [
    | inl e ↦ absurd (ground (arith, e))
    | inr (w, e) ↦
        let (short, tagged, c) = parse_wire-some a w e in
        let k : conn_info node disco coding w ≡ some ci = ground (arith, e) in
        let (server_set, disco_set, secret_set) = conn_info-fields w ci c k in
        (short, tagged, server_set, disco_set, secret_set)
  ]
