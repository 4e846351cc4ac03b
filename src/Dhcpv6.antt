-- ===== src/Dhcpv6.antt =====
-- The server and interface tables of the DHCPv6 relay: relay/dhcpv6r/src/dhcpv6_relay_config.c. The
-- array of pointers is handled as in the tables for IPv4.
pub mod Rows
pub mod Dispatch
pub mod Skipped
pub mod Tests
use ops_ipapps.Base.{
  ℕ, zero, suc, ◌+◌, ◌-◌, ◌%◌, ◌^◌, Bool, true, false, ◌&&◌, not, Option, none, some, List, [], ◌∷◌,
  leb, ltb, ◌==◌, if◌then◌else◌, get_elem?, length, Text, strncmp_eq,
}
use ops_ipapps.Base.Run.{StateRun, pure, and_then, ◌>>=◌, ◌>>◌, deref}
use ops_ipapps.Tables.{
  pointers, set_pointer, compact, starts_null, or_later, find_name, delete_name, addresses,
}
use ops_ipapps.Tables.Heap.{Cells, cell, write, free}

-- DHCPV6_RELAY_SERVER_T, with the strings that it owns.
pub record Server : Type 0 where
  pub ipv6_address : Text
  pub egress_if_name : Option Text
  pub ref_count : ℕ

-- DHCPV6_RELAY_INTERFACE_NODE_T
pub record IntfNode : Type 0 where
  pub port_name : Text
  pub addr_count : ℕ
  pub server_array : Option (List ℕ)

pub record Tables : Type 0 where
  pub servers : Cells Server
  pub nodes : Cells IntfNode
  pub names : List (Text × ℕ)

abbrev pub Run : Type 0 → Type 0
Run A = StateRun Tables A

-- What malloc and calloc return; xstrdup does not return without memory.
pub record Allocator : Type 0 where
  pub malloc : List ℕ → Option ℕ
  pub malloc_array : Tables → Option (List ℕ)

abbrev pub max_servers : ℕ
max_servers = 8

abbrev pub same_interface : Option Text → Option Text → Bool
same_interface none none = true
same_interface none (some b) = false
same_interface (some a) none = false
same_interface (some a) (some b) = strncmp_eq a b (length a)

unfoldable pub compare_server : Text → Text → Option Text → Option Text → Bool
compare_server ip1 ip2 name1 name2 =
    if strncmp_eq ip1 ip2 (length ip1) then same_interface name1 name2 else false

unfoldable pub load_node : ℕ → Run IntfNode
load_node p t = deref (cell p t.nodes) t

abbrev pub store_node : ℕ → IntfNode → Run (Unit {0})
store_node p n t = some (tt, record t { nodes = write p n t.nodes })

unfoldable pub is_entry : Option Server → Text → Option Text → Option Bool
unfolding compare_server
is_entry none ip egress = none
is_entry (some s) ip egress = some (compare_server s.ipv6_address ip s.egress_if_name egress)

unfoldable pub find_ref : Cells Server → Text → Option Text → List ℕ → Option (Option ℕ)
unfolding is_entry or_later
find_ref cs ip egress [] = some none
find_ref cs ip egress (p ∷ ps) =
    or_later (is_entry (cell p cs) ip egress) (find_ref cs ip egress ps)

unfoldable pub insert_server : Option ℕ → Text → Option Text → Run (Option ℕ)
insert_server none ip egress t = some (none, t)
insert_server (some p) ip egress t = some (
  some p,
  record t {
    servers = (p, record { ipv6_address = ip; egress_if_name = egress; ref_count = 1 }) ∷ t.servers;
  },
)

unfoldable pub retain : ℕ → Option Server → Run (Option ℕ)
retain p none t = none
retain p (some s) t = some (
  some p,
  record t { servers = write p (record s { ref_count = (s.ref_count + 1) % 2 ^ 16 }) t.servers },
)

-- The node is freed with its last server.
unfoldable pub drop_empty : ℕ → IntfNode → Run (Unit {0})
drop_empty np n t =
    if starts_null n.server_array && (n.addr_count == 0)
    then some (tt, record t { nodes = free np t.nodes; names = delete_name n.port_name t.names })
    else some (tt, record t { nodes = write np n t.nodes })

unfoldable pub append_pointer : ℕ → IntfNode → Option ℕ → Run Bool
append_pointer np n none = pure false
append_pointer np n (some p) = do
  store_node np (record n {
    server_array = set_pointer n.addr_count p n.server_array;
    addr_count = (n.addr_count + 1) % 2 ^ 8;
  })
  pure true

unfoldable pub remove_found : ℕ → Option ℕ → Run Bool
unfolding load_node compact drop_empty delete_name
remove_found np none = pure false
remove_found np (some deleted) = do
  n ← load_node np
  array ← deref (compact (n.addr_count - 1) deleted n.server_array)
  drop_empty np (record n { addr_count = n.addr_count - 1; server_array = array })
  pure true

-- GENERATE_KEY's hash of the two strings
module _ (hash : Text → Option Text → ℕ) where
  -- Only the entries under the hash are compared.
  unfoldable pub get_server_entry : Text → Option Text → Cells Server → Option ℕ
  unfolding compare_server
  get_server_entry ip egress [] = none
  get_server_entry ip egress ((p, s) ∷ cs) =
      if (hash s.ipv6_address s.egress_if_name == hash ip egress)
        && compare_server ip s.ipv6_address egress s.egress_if_name
      then some p
      else get_server_entry ip egress cs

  -- The entry leaves the map under the hash of what is looked for, which has to be its own.
  unfoldable pub release_entry : Text → Option Text → ℕ → Option Server → Run (Unit {0})
  release_entry ip egress p none t = none
  release_entry ip egress p (some s) t =
      if s.ref_count == 0
      then none
      else if not (s.ref_count == 1)
      then some
          (tt, record t { servers = write p (record s { ref_count = s.ref_count - 1 }) t.servers })
      else if hash s.ipv6_address s.egress_if_name == hash ip egress
      then some (tt, record t { servers = free p t.servers })
      else none

  unfoldable pub remove_at : Text → Option Text → ℕ → IntfNode → Option ℕ → Run (Option ℕ)
  unfolding release_entry
  remove_at ip egress np n none = pure none
  remove_at ip egress np n (some i) = do
    p ← deref (get_elem? (pointers n.server_array n.addr_count) i)
    λ t. release_entry ip egress p (cell p t.servers) t
    store_node np (record n { server_array = set_pointer i 0 n.server_array })
    pure (some i)

  unfoldable pub remove_server_ref_entry : ℕ → Text → Option Text → Run (Option ℕ)
  unfolding remove_at find_ref load_node
  remove_server_ref_entry np ip egress = do
    n ← load_node np
    found ← λ t. deref (find_ref t.servers ip egress (pointers n.server_array n.addr_count)) t
    remove_at ip egress np n found

  unfoldable pub remove_address : ℕ → Text → Option Text → Run Bool
  unfolding remove_server_ref_entry remove_found
  remove_address np ip egress = do
    found ← remove_server_ref_entry np ip egress
    remove_found np found

  module _ (a : Allocator) where
    unfoldable pub share : Text → Option Text → Option ℕ → Run (Option ℕ)
    unfolding retain insert_server
    share ip egress none t = insert_server (a.malloc (addresses t.servers)) ip egress t
    share ip egress (some p) t = retain p (cell p t.servers) t

    unfoldable pub store_in : ℕ → Text → Option Text → IntfNode → Run Bool
    unfolding share append_pointer get_server_entry
    store_in np ip egress n = do
      server ← λ t. share ip egress (get_server_entry ip egress t.servers) t
      append_pointer np n server

    unfoldable pub with_array : ℕ → Text → Option Text → IntfNode → Option (List ℕ) → Run Bool
    unfolding store_in
    with_array np ip egress n none = do store_node np (record n { addr_count = 0 }); pure false
    with_array np ip egress n (some array) = do
      let n' = record n { addr_count = 0; server_array = some array }
      store_node np n'
      store_in np ip egress n'

    unfoldable pub store_by_array : ℕ → Text → Option Text → IntfNode → Option (List ℕ) → Run Bool
    unfolding with_array store_in
    store_by_array np ip egress n (some array) t = store_in np ip egress n t
    store_by_array np ip egress n none t =
        if not (n.addr_count == 0)
        then some (false, t)
        else with_array np ip egress n (a.malloc_array t) t

    unfoldable pub store_below_limit : ℕ → Text → Option Text → IntfNode → Run Bool
    unfolding store_by_array
    store_below_limit np ip egress n t =
        if leb max_servers n.addr_count
        then some (false, t)
        else store_by_array np ip egress n n.server_array t

    unfoldable pub store_address : ℕ → Text → Option Text → Run Bool
    unfolding load_node store_below_limit
    store_address np ip egress = do n ← load_node np; store_below_limit np ip egress n
