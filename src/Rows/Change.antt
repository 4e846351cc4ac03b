-- ===== src/Rows/Change.antt =====
-- The handlers of inserted and modified rows (relay/udpfwd/src/udpfwd_config.c): the servers that
-- the row no longer names are removed, and the new ones are stored.
use ops_ipapps.Base.{
  ℕ, ◌%◌, ◌^◌, Bool, true, false, ◌&&◌, not, Option, none, some, List, [], ◌∷◌, ◌==◌, if◌then◌else◌,
  map, Text,
}
use ops_ipapps.Relay.{Counters}
use ops_ipapps.Tables.{
  ServerEntry, IntfNode, Allocator, Run, pure, ◌>>=◌, ◌>>◌, deref, load_node, store_node, pointers,
  addresses, find_name,
}
use ops_ipapps.Tables.Store.{store_address}
use ops_ipapps.Tables.Heap.{Cells, cell}
use ops_ipapps.Rows.{
  DhcpRelayRow, BcastForwarderRow, dhcps_port, usable, local_array, collect, remove_servers,
  server_ip_exists,
}

abbrev zero_counters : Counters
zero_counters = record {
  client_drops = 0;
  client_valids = 0;
  serv_drops = 0;
  serv_valids = 0;
  client_drops_with_option82 = 0;
  client_valids_with_option82 = 0;
  serv_drops_with_option82 = 0;
  serv_valids_with_option82 = 0;
}

abbrev pub new_node : Text → IntfNode
new_node name = record {
  port_name = name;
  addr_count = 0;
  server_array = none;
  bootp_gw = 0;
  counters = zero_counters;
}

unfoldable pub insert_node : Option ℕ → Bool → Text → Run (Option ℕ)
insert_node none memory name t = some (none, t)
insert_node (some p) false name t = some (none, t)
insert_node (some p) true name t =
    some (some p, record t { nodes = (p, new_node name) ∷ t.nodes; names = (name, p) ∷ t.names })

-- The search of a server among an interface's, which ends at the first for which the test holds.
unfoldable pub entry_found : (ℕ → ℕ → Bool) → Option ServerEntry → Option Bool → Option Bool
entry_found test none rest = none
entry_found test (some s) rest = if test s.ip_address s.udp_port then some true else rest

unfoldable pub any_entry : (ℕ → ℕ → Bool) → Cells ServerEntry → List ℕ → Option Bool
unfolding entry_found
any_entry test cs [] = some false
any_entry test cs (p ∷ ps) = entry_found test (cell p cs) (any_entry test cs ps)

abbrev keep_new : ℕ → ℕ → Bool → List (ℕ × ℕ) → List (ℕ × ℕ)
keep_new ip port found ks = if found then ks else (ip, port) ∷ ks

unfoldable pub store_servers : Allocator → ℕ → List (ℕ × ℕ) → Run (Unit {0})
store_servers a np [] = pure tt
store_servers a np ((ip, port) ∷ ks) = do store_address a np ip port; store_servers a np ks

module _ (inet_aton : Text → Option ℕ) (a : Allocator) where
  unfoldable pub create_intferface_node : Text → Run (Option ℕ)
  unfolding insert_node
  create_intferface_node name t =
      insert_node (a.malloc (addresses t.nodes)) (a.calloc_name t) name t

  unfoldable pub node_or_new : Option ℕ → Text → Run (Option ℕ)
  unfolding create_intferface_node
  node_or_new none name = create_intferface_node name
  node_or_new (some np) name = pure (some np)

  unfoldable pub gateway_value : Option ℕ → ℕ → ℕ
  gateway_value none old = old
  gateway_value (some ip) old = ip

  unfoldable pub bootp_gateway_of : Option Text → ℕ → ℕ
  unfolding gateway_value
  bootp_gateway_of none old = 0
  bootp_gateway_of (some gateway) old = gateway_value (usable (inet_aton gateway)) old

  unfoldable pub set_bootp_gw : Bool → Option Text → ℕ → Run (Unit {0})
  unfolding load_node bootp_gateway_of
  set_bootp_gw false gateway np = pure tt
  set_bootp_gw true gateway np = do
    n ← load_node np
    store_node np (record n { bootp_gw = bootp_gateway_of gateway n.bootp_gw })

  -- A round for a server of the row; the interface node is read again in every one that has a usable
  -- address.
  unfoldable pub new_server_round :
      (ℕ → ℕ → ℕ → Bool) → ℕ → ℕ → Option ℕ → List (ℕ × ℕ) → Run (List (ℕ × ℕ))
  unfolding load_node any_entry
  new_server_round same port np none ks = pure ks
  new_server_round same port np (some ip) ks = do
    n ← load_node np
    found ← λ t. deref (any_entry (same ip) t.servers (pointers n.server_array n.addr_count)) t
    pure (keep_new ip port found ks)

  unfoldable pub new_servers : (ℕ → ℕ → ℕ → Bool) → ℕ → ℕ → List Text → Run (List (ℕ × ℕ))
  unfolding new_server_round
  new_servers same port np [] = pure []
  new_servers same port np (server ∷ servers) = do
    ks ← new_servers same port np servers
    new_server_round same port np (usable (inet_aton server)) ks

  -- The two loops that both handlers have: `stale` decides what is collected for removal, `removed`
  -- what is removed for it, and `same` what counts as present.
  unfoldable pub update_servers :
      (ℕ → ℕ → Bool) → (ℕ × ℕ → ℕ × ℕ) → (ℕ → ℕ → ℕ → Bool) → ℕ → List Text → ℕ → Run (Unit {0})
  unfolding load_node collect local_array remove_servers new_servers store_servers
  update_servers stale removed same port servers np = do
    n ← load_node np
    ks ← λ t. deref (collect stale t.servers (pointers n.server_array n.addr_count)) t
    old ← deref (local_array ks)
    remove_servers np (map removed old)
    fresh ← new_servers same port np servers
    new ← deref (local_array fresh)
    store_servers a np new

  unfoldable pub relay_update : DhcpRelayRow → Bool → ℕ → Run (Unit {0})
  unfolding update_servers server_ip_exists
  relay_update rec false np = pure tt
  relay_update rec true np =
      update_servers (λ ip port. not (server_ip_exists inet_aton ip rec.ipv4_ucast_server))
        (λ k. (k.0, dhcps_port)) (λ new ip port. ip == new) dhcps_port rec.ipv4_ucast_server np

  unfoldable pub relay_change_node : DhcpRelayRow → Option ℕ → Run (Unit {0})
  unfolding set_bootp_gw relay_update
  relay_change_node rec none = pure tt
  relay_change_node rec (some np) = do
    set_bootp_gw rec.other_config_modified rec.bootp_gateway np
    relay_update rec rec.servers_modified np

  unfoldable pub relay_change_port : DhcpRelayRow → Option Text → Bool → Run (Unit {0})
  unfolding node_or_new relay_change_node
  relay_change_port rec none vrf = pure tt
  relay_change_port rec (some port) false = pure tt
  relay_change_port rec (some port) true = do
    np ← λ t. node_or_new (find_name port t.names) port t
    relay_change_node rec np

  unfoldable pub dhcp_relay_config_change : DhcpRelayRow → Run (Unit {0})
  unfolding relay_change_port
  dhcp_relay_config_change rec = relay_change_port rec rec.port rec.vrf

  -- The server that is stored gets the row's port as a uint16_t.
  unfoldable pub bcast_change_node : BcastForwarderRow → Option ℕ → Run (Unit {0})
  unfolding update_servers server_ip_exists
  bcast_change_node rec none = pure tt
  bcast_change_node rec (some np) =
      update_servers
        (λ ip port.
          not (server_ip_exists inet_aton ip rec.ipv4_ucast_server && (port == rec.udp_dport))
          && (port == rec.udp_dport))
        (λ k. k) (λ new ip port. (ip == new) && (port == rec.udp_dport)) (rec.udp_dport % 2 ^ 16)
        rec.ipv4_ucast_server np

  unfoldable pub bcast_change_port : BcastForwarderRow → Option Text → Bool → Run (Unit {0})
  unfolding node_or_new bcast_change_node
  bcast_change_port rec none vrf = pure tt
  bcast_change_port rec (some port) false = pure tt
  bcast_change_port rec (some port) true = do
    np ← λ t. node_or_new (find_name port t.names) port t
    bcast_change_node rec np

  unfoldable pub udp_bcast_forwarder_config_change : BcastForwarderRow → Run (Unit {0})
  unfolding bcast_change_port
  udp_bcast_forwarder_config_change rec = bcast_change_port rec rec.src_port rec.dest_vrf
