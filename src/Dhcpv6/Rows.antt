-- ===== src/Dhcpv6/Rows.antt =====
-- The handlers of DHCP_Relay rows in the DHCPv6 relay: dhcpv6_relay_config.c, and the dispatch of
-- relay/dhcpv6r/src/dhcpv6_relay.c.
use ops_ipapps.Base.{
  ℕ, zero, suc, ◌+◌, Bool, true, false, ◌||◌, Option, none, some, List, [], ◌∷◌, ltb, if◌then◌else◌,
  get_elem?, length, Text, strncmp_eq,
}
use ops_ipapps.Base.Run.{pure, ◌>>=◌, ◌>>◌, deref}
use ops_ipapps.Tables.{pointers, find_name, addresses}
use ops_ipapps.Tables.Heap.{Cells, cell}
use ops_ipapps.Dhcpv6.{
  Server, IntfNode, Run, Allocator, compare_server, load_node, remove_address, store_address,
}

-- A row of DHCP_Relay with the columns that this daemon reads.
pub record Dhcpv6RelayRow : Type 0 where
  pub port : Option Text
  pub vrf : Bool
  pub servers_modified : Bool
  pub ipv6_ucast_server : List Text
  pub changed : Bool

abbrev pub names_port : Option Text → Text → Bool
names_port none name = false
names_port (some port) name = strncmp_eq port name (length port)

unfoldable pub row_found : List Dhcpv6RelayRow → Text → Bool
row_found [] name = false
row_found (rec ∷ rows) name = names_port rec.port name || row_found rows name

abbrev pub insert_node : Option ℕ → Text → Run (Option ℕ)
insert_node none name t = some (none, t)
insert_node (some p) name t = some (
  some p,
  record t {
    nodes = (p, record { port_name = name; addr_count = 0; server_array = none }) ∷ t.nodes;
    names = (name, p) ∷ t.names;
  },
)

abbrev pub array_at : Option (List ℕ) → ℕ → Option ℕ
array_at none i = none
array_at (some array) i = get_elem? array i

-- The entry that a place of the array points to.
unfoldable pub load_server : ℕ → IntfNode → Run Server
load_server i n = do p ← deref (array_at n.server_array i); λ t. deref (cell p t.servers) t

-- Whether an entry is the row's server; nothing is read for a row without servers.
unfoldable pub is_kept : Text → ℕ → List Text → Option Bool
unfolding compare_server
is_kept ip i [] = some false
is_kept ip i (s ∷ ss) = elim (get_elem? (s ∷ ss) i) [
  | none ↦ none
  | some server ↦ some (compare_server ip server none none)
]

unfoldable pub entry_found : Option Server → Text → Option Bool → Option Bool
unfolding compare_server
entry_found none server rest = none
entry_found (some s) server rest =
    if compare_server s.ipv6_address server none none then some true else rest

unfoldable pub is_present : Cells Server → Text → List ℕ → Option Bool
unfolding entry_found
is_present cs server [] = some false
is_present cs server (p ∷ ps) = entry_found (cell p cs) server (is_present cs server ps)

module _ (hash : Text → Option Text → ℕ) where
  -- The rounds from place `i` on: each reads the array where the rounds before have left it.
  unfoldable pub delete_rounds : ℕ → ℕ → ℕ → Run (Unit {0})
  unfolding load_node load_server
  delete_rounds zero i np = pure tt
  delete_rounds (suc rounds) i np = do
    n ← load_node np
    s ← load_server i n
    remove_address hash np s.ipv6_address s.egress_if_name
    delete_rounds rounds (i + 1) np

  unfoldable pub node_delete : Bool → ℕ → Run (Unit {0})
  unfolding load_node delete_rounds
  node_delete true np = pure tt
  node_delete false np = do n ← load_node np; delete_rounds n.addr_count 0 np

  unfoldable pub walk : List Dhcpv6RelayRow → List (Text × ℕ) → Run (Unit {0})
  unfolding row_found node_delete
  walk rows [] = pure tt
  walk rows ((name, np) ∷ ns) = do node_delete (row_found rows name) np; walk rows ns

  unfoldable pub row_delete : List Dhcpv6RelayRow → Run (Unit {0})
  unfolding walk
  row_delete rows t = walk rows t.names t

  unfoldable pub flush_unless : Bool → ℕ → Server → Run (Unit {0})
  flush_unless true np s = pure tt
  flush_unless false np s = do remove_address hash np s.ipv6_address none; pure tt

  unfoldable pub flush_entry : ℕ → ℕ → IntfNode → List Text → Run (Unit {0})
  unfolding load_server is_kept flush_unless
  flush_entry i np n servers = do
    s ← load_server i n
    kept ← deref (is_kept s.ipv6_address i servers)
    flush_unless kept np s

  -- addrCount is read again in every round, and never grows.
  unfoldable pub flush_rounds : ℕ → ℕ → ℕ → List Text → Run (Unit {0})
  unfolding load_node flush_entry
  flush_rounds zero i np servers = λ t. none
  flush_rounds (suc fuel) i np servers = do
    n ← load_node np
    let next = do flush_entry i np n servers; flush_rounds fuel (i + 1) np servers
    if ltb i n.addr_count then next else pure tt

  unfoldable pub flush_removed_ucast_entries : List Text → ℕ → Run (Unit {0})
  unfolding load_node flush_rounds
  flush_removed_ucast_entries servers np = do
    n ← load_node np
    flush_rounds (n.addr_count + 1) 0 np servers

  module _ (a : Allocator) where
    unfoldable pub store_unless : Bool → ℕ → Text → Run (Unit {0})
    store_unless true np server = pure tt
    store_unless false np server = do store_address hash a np server none; pure tt

    unfoldable pub get_ucast_entries_added : List Text → ℕ → Run (Unit {0})
    unfolding load_node is_present store_unless
    get_ucast_entries_added [] np = pure tt
    get_ucast_entries_added (server ∷ servers) np = do
      n ← load_node np
      present ← λ t. deref (is_present t.servers server (pointers n.server_array n.addr_count)) t
      store_unless present np server
      get_ucast_entries_added servers np

    unfoldable pub create_intferface_node : Text → Run (Option ℕ)
    create_intferface_node name t = insert_node (a.malloc (addresses t.nodes)) name t

    unfoldable pub node_or_new : Option ℕ → Text → Run (Option ℕ)
    unfolding create_intferface_node
    node_or_new none name = create_intferface_node name
    node_or_new (some np) name = pure (some np)

    unfoldable pub change_node : Bool → List Text → Option ℕ → Run (Unit {0})
    unfolding get_ucast_entries_added flush_removed_ucast_entries
    change_node modified servers none = pure tt
    change_node false servers (some np) = pure tt
    change_node true servers (some np) = do
      get_ucast_entries_added servers np
      flush_removed_ucast_entries servers np

    unfoldable pub change_port : Dhcpv6RelayRow → Option Text → Bool → Run (Unit {0})
    unfolding node_or_new change_node
    change_port rec none vrf = pure tt
    change_port rec (some port) false = pure tt
    change_port rec (some port) true = do
      np ← λ t. node_or_new (find_name port t.names) port t
      change_node rec.servers_modified rec.ipv6_ucast_server np

    unfoldable pub config_change : Dhcpv6RelayRow → Run (Unit {0})
    unfolding change_port
    config_change rec = change_port rec rec.port rec.vrf
