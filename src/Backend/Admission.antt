-- ===== src/Backend/Admission.antt =====
-- tailcat.go: onMeow, the admission of an authenticated bootstrap announcement.
pub mod Clients
pub mod Invariant
pub mod Eviction
pub mod Outcome
pub mod Retirement
use tailcat_quic.Base.{
  leb, if◌then◌else◌, length, lookup, insert, ℕ, ◌+◌, max, Bool, true, false, not, Option, none,
  some, List, [], ◌∷◌,
}
use tailcat_quic.Keys.{KeyCodec}
use tailcat_quic.H3.{h3_max_clients}
use tailcat_quic.Lease.{SessionStates, new_h3_client_lease}
use tailcat_quic.NetAddr.{pfx_of, all_ipv6, tc_addr_for_key}
use tailcat_quic.Backend.{
  NetworkMap, Node, Backend, Effect, reset_device_peer, set_network_map, update_netstack_ips,
  advertise_endpoints,
}
use tailcat_quic.Backend.Retire.{SessionEvent, retire_h3_client_locked}

module _ {N D : Type 0} where
  -- slices.SortFunc by ID; IDs are unique.
  pub insert_by_id : Node N D → List (Node N D) → List (Node N D)
  insert_by_id n [] = n ∷ []
  insert_by_id n (m ∷ ms) =
      let rest = insert_by_id n ms in if leb n.id m.id then n ∷ m ∷ ms else m ∷ rest

  pub sort_by_id : List (N × Node N D) → List (Node N D)
  unfolding insert_by_id
  sort_by_id [] = []
  sort_by_id ((k, n) ∷ m) = insert_by_id n (sort_by_id m)

module _ {N D : Type 0} (node : KeyCodec N) (disco : KeyCodec D) (states : SessionStates) where
  -- `b.allowedClients != nil && !b.allowedClients[src]`
  unfoldable pub is_ignored : Option (List (N × Bool)) → N → Bool
  is_ignored none src = false
  is_ignored (some allowed) src = not (is_marked (lookup ⦃e = node.eq⦄ src allowed))
    where
      is_marked : Option Bool → Bool
      is_marked none = false
      is_marked (some mark) = mark

  unfoldable pub client_node : ℕ → N → D → ℕ → Node N D
  client_node id src d region = record {
    id = id;
    key = src;
    disco_key = d;
    addresses = pfx_of (tc_addr_for_key node src) ∷ [];
    allowed_ips = pfx_of (tc_addr_for_key node src) ∷ [];
    home_derp = region;
  }

  unfoldable pub server_node : Backend N D → Node N D
  server_node b = record {
    id = 1;
    key = b.public_key;
    disco_key = b.disco_public;
    addresses = pfx_of b.own_addr ∷ [];
    allowed_ips = pfx_of b.own_addr ∷ all_ipv6 ∷ [];
    home_derp = b.derp_region;
  }

  -- The second half of onMeow, from the new client ID on, at the given time.
  unfoldable pub admit : N → D → ℕ → Backend N D → Bool × Backend N D × List (Effect N D)
  unfolding server_node client_node
  admit src d now b =
      let id = max (b.next_client_id + 1) 2 in
      let clients' = insert ⦃e = node.eq⦄ src (client_node id src d b.derp_region) b.clients in
      let nm' : NetworkMap N D = record {
        self_node = server_node b;
        peers = sort_by_id clients';
      } in
      (
        true,
        record b {
          next_client_id = id;
          client_leases = insert ⦃e = node.eq⦄ src (new_h3_client_lease states now) b.client_leases;
          clients = clients';
          nm = some nm';
        },
        set_network_map nm' ∷ update_netstack_ips nm' ∷ advertise_endpoints ∷ [],
      )

  -- Go on with the outcome of the retirement.
  unfoldable pub admit_after :
      N → D → ℕ → Option N × Backend N D → Bool × Backend N D × List (Effect N D)
  admit_after src d now (none, b) = (false, b, [])
  admit_after src d now (some retired, b) =
      let (ok, b', effects) = admit src d now b in (ok, b', reset_device_peer retired ∷ effects)

  -- The end of onMeow for a source that is no client yet.
  unfoldable pub meow_from_new :
      ℕ → List (SessionEvent N) → ℕ → N → D → Backend N D → Bool × Backend N D × List (Effect N D)
  meow_from_new scan_time between lease_time src d b =
      if leb h3_max_clients (length b.clients)
      then admit_after src d lease_time (retire_h3_client_locked node states scan_time between b)
      else admit src d lease_time b

  -- onMeow. The two times are those of the two calls of time.Now, and the events are the session
  -- callbacks that run between the scan for a client to retire and the claim of its lease.
  unfoldable pub on_meow :
      ℕ → List (SessionEvent N) → ℕ → N → D → Backend N D → Bool × Backend N D × List (Effect N D)
  on_meow scan_time between lease_time src d b =
      if is_ignored b.allowed_clients src
      then (false, b, [])
      else elim (lookup ⦃e = node.eq⦄ src b.clients) [
        | some n ↦ (disco.eq.beq n.disco_key d, b, [])
        | none ↦ meow_from_new scan_time between lease_time src d b
      ]
