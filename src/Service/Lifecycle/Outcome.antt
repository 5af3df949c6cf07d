-- ===== src/Service/Lifecycle/Outcome.antt =====
-- What Listen and Close do: the port is the listener's own from the one to the other.
use tailcat_quic.Base.{
  ◌==◌, if◌then◌else◌, lookup, ℕ, ◌≡◌, refl, Bool, ◌&&◌, Option, none, some, List, arith, nat_eq,
}
use tailcat_quic.Service.{Proto, Listener, Server}
use tailcat_quic.Service.Listeners.{
  ListenError, err_closed, Result, ok, err, Names, proto_of, listeners, add_listener, listen_unless,
  listen_on, listen_checked, listen_numbered, listen_split, listen_network, listen, close,
  choose_port, check_host, network_is_udp,
}
use tailcat_quic.Service.Lifecycle.{
  Inv, same, new_listener, added, shut, close-of_open, close-of_closed, lookup-added, lookup-shut,
  is_closed-shut,
}
use tailcat_quic.Service.Lifecycle.Preserved.{shut-Inv, added-Inv}

module _ {H U : Type 0} where
  -- What an outcome of Listen means: the port was free and is now the listener's, and nothing else
  -- has changed hands; or the server is as before.
  abbrev pub Opened : Server H U → Result Listener × Server H U → Type 0
  Opened s (ok ln, s') =
      Inv s'
      × (lookup ln.port (listeners (proto_of ln.udp) s) ≡ none)
      × ((q : Proto) (t : ℕ)
          → lookup t (listeners q s') ≡ (
              if same (proto_of ln.udp) q && ln.port == t
              then some ln
              else lookup t (listeners q s)))
  Opened s (err e, s') = s' ≡ s

  add-Opened :
      (u : Bool) (port : ℕ) (s : Server H U)
      → Inv s
      → lookup port (listeners (proto_of u) s) ≡ none
      → Opened s (add_listener u port s)
  unfolding added new_listener add_listener
  add-Opened u port s v free = (added-Inv u port s v free, free, λ q t. lookup-added u port s q t)

  unless-Opened :
      (o : Option Listener) (u : Bool) (port : ℕ) (s : Server H U)
      → Inv s
      → lookup port (listeners (proto_of u) s) ≡ o
      → Opened s (listen_unless o u port s)
  unfolding listen_unless
  unless-Opened none u port s v e = add-Opened u port s v e
  unless-Opened (some dup) u port s v e = refl

  on-Opened : (u : Bool) (o : Option ℕ) (s : Server H U) → Inv s → Opened s (listen_on u o s)
  unfolding listen_on
  on-Opened u none s v = refl
  on-Opened u (some port) s v =
      unless-Opened (lookup port (listeners (proto_of u) s)) u port s v refl

  module _ (names : Names) (random : ℕ) (s : Server H U) (v : Inv s) where
    checked-Opened :
        (o : Option ListenError) (u : Bool) (n : ℕ) → Opened s (listen_checked o u random n s)
    unfolding listen_checked
    checked-Opened none u n = on-Opened u (choose_port u random n s) s v
    checked-Opened (some e) u n = refl

    numbered-Opened :
        (host : List ℕ) (u : Bool) (o : Option ℕ)
        → Opened s (listen_numbered names random host u o s)
    unfolding listen_numbered
    numbered-Opened host u none = refl
    numbered-Opened host u (some n) = checked-Opened (check_host names host s) u n

    split-Opened :
        (network : List ℕ) (u : Bool) (o : Option (List ℕ × List ℕ))
        → Opened s (listen_split names random network u o s)
    unfolding listen_split
    split-Opened network u none = refl
    split-Opened network u (some (host, port_str)) =
        numbered-Opened host u (names.lookup_port network port_str)

    network-Opened :
        (network address : List ℕ) (o : Option Bool)
        → Opened s (listen_network names random network address o s)
    unfolding listen_network
    network-Opened network address none = refl
    network-Opened network address (some u) = split-Opened network u (names.split_host_port address)

  -- Listen either returns a listener on a port that was free, which is the listener's own from then
  -- on, with all other entries as they were and the filter rebuilt, or it returns an error and changes
  -- nothing.
  pub listen_outcome :
      (names : Names) (random : ℕ) (network address : List ℕ) (s : Server H U)
      → Inv s
      → Opened s (listen names random network address s)
  unfolding listen
  listen_outcome names random network address s v =
      network-Opened names random s v network address (network_is_udp network)

  -- Closing a listener that holds its port succeeds, keeps the invariant, frees that port and no
  -- other entry, and a second Close of it fails and changes nothing.
  pub close_outcome :
      (ln : Listener) (s : Server H U)
      → Inv s
      → lookup ln.port (listeners (proto_of ln.udp) s) ≡ some ln
      → let s' = (close ln s).1 in
        ((close ln s).0 ≡ ok tt)
        × Inv s'
        × ((q : Proto) (t : ℕ)
            → lookup t (listeners q s') ≡ (
                if same (proto_of ln.udp) q && ln.port == t
                then none
                else lookup t (listeners q s)))
        × (close ln s' ≡ (err err_closed, s'))
  close_outcome ln s v h =
      let is_open = (v.held (proto_of ln.udp) ln.port ln h).3 in
      rw (close-of_open ln s is_open) (
        refl,
        shut-Inv ln s v h,
        λ q t. lookup-shut ln.udp ln.port ln.id s q t,
        close-of_closed ln (shut ln s) (ground (arith, is_closed-shut ln ln s)),
      )
