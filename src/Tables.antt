-- ===== src/Tables.antt =====
-- The server and interface tables of relay/udpfwd/src/udpfwd_config.c: servers are shared between
-- interfaces and count their references, and an interface holds an array of pointers to them.
pub mod Heap
pub mod Arrays
pub mod Compact
pub mod Valid
pub mod Entries
pub mod Share
pub mod View
pub mod Relabel
pub mod Store
pub mod Appended
pub mod StoreAddress
pub mod Tally
pub mod Release
pub mod Dropped
pub mod AfterRemoval
pub mod RemoveAddress
pub mod RoundTrip
pub mod Concrete
pub mod Tests
use ops_ipapps.Base.{
  ℕ, zero, suc, ◌+◌, ◌-◌, ◌%◌, Bool, true, false, ◌&&◌, not, Option, none, some, List, [], ◌∷◌, leb,
  ◌==◌, if◌then◌else◌, set, get_elem?, replicate, ◌^◌, Text,
}
use mathlib.Core.Option
use ops_ipapps.Base.Run.{StateRun}
pub use ops_ipapps.Base.Run.{pure, and_then, ◌>>=◌, ◌>>◌, deref}
use ops_ipapps.Relay.{Counters, same_text}
use ops_ipapps.Tables.Heap.{Cells, cell, write, free}

-- UDPFWD_SERVER_T; `ref_count` is a uint16_t.
pub record ServerEntry : Type 0 where
  pub ip_address : ℕ
  pub udp_port : ℕ
  pub ref_count : ℕ

-- UDPFWD_INTERFACE_NODE_T; the array of pointers to servers is NULL or a block of 16.
pub record IntfNode : Type 0 where
  pub port_name : Text
  pub addr_count : ℕ
  pub server_array : Option (List ℕ)
  pub bootp_gw : ℕ
  pub counters : Counters

-- The allocated server entries, which are the entries of serverHashMap, the allocated interface
-- nodes, and intfHashTable with a pointer for each name.
pub record Tables : Type 0 where
  pub servers : Cells ServerEntry
  pub nodes : Cells IntfNode
  pub names : List (Text × ℕ)

-- What the allocator returns: a free address for a server or a node (from those in use), the array's
-- block with whatever it holds, and whether there is memory for a node's name; NULL is `none`.
pub record Allocator : Type 0 where
  pub malloc : List ℕ → Option ℕ
  pub malloc_array : Tables → Option (List ℕ)
  pub calloc_name : Tables → Bool

abbrev pub max_servers : ℕ
max_servers = 16

abbrev pub Run : Type 0 → Type 0
Run A = StateRun Tables A

unfoldable pub load_node : ℕ → Run IntfNode
load_node p t = deref (cell p t.nodes) t

-- A write through a pointer that was just read.
abbrev pub store_node : ℕ → IntfNode → Run (Unit {0})
store_node p n t = some (tt, record t { nodes = write p n t.nodes })

-- udpfwd_get_server_entry: the entry of the map with this address and port. The map is walked under
-- the hash of the two, which is the hash that each entry was inserted with.
unfoldable pub get_server_entry : ℕ → ℕ → Cells ServerEntry → Option ℕ
get_server_entry ip port [] = none
get_server_entry ip port ((p, s) ∷ cs) =
    if (s.ip_address == ip) && (s.udp_port == port) then some p else get_server_entry ip port cs

abbrev pub addresses : {V : Type 0} → Cells V → List ℕ
addresses [] = []
addresses ((p, v) ∷ cs) = p ∷ addresses cs

abbrev pub new_server : ℕ → ℕ → ServerEntry
new_server ip port = record { ip_address = ip; udp_port = port; ref_count = 1 }

-- udpfwd_push_deleted_server_ref_to_end on the array
unfoldable pub push_deleted : ℕ → ℕ → List ℕ → Option (List ℕ)
push_deleted count deleted array = elim (get_elem? array count) [
  | none ↦ none
  | some server ↦ some (set (set (set array deleted 0) count 0) deleted server)
]

-- The first addrCount pointers of the array; through a NULL array they are no pointers.
abbrev pub take : ℕ → List ℕ → List ℕ
take zero ps = []
take (suc n) [] = []
take (suc n) (p ∷ ps) = p ∷ take n ps

abbrev pub pointers : Option (List ℕ) → ℕ → List ℕ
pointers none n = replicate n 0
pointers (some array) n = take n array

-- Whether a pointer's entry is the one looked for.
unfoldable pub is_entry : Option ServerEntry → ℕ → ℕ → Option Bool
is_entry none ip port = none
is_entry (some s) ip port = some ((s.ip_address == ip) && (s.udp_port == port))

-- The index in the array; a pointer behind the one that is found is not read.
unfoldable pub or_later : Option Bool → Option (Option ℕ) → Option (Option ℕ)
or_later none later = none
or_later (some true) later = some (some 0)
or_later (some false) none = none
or_later (some false) (some none) = some none
or_later (some false) (some (some i)) = some (some (suc i))

unfoldable pub find_ref : Cells ServerEntry → ℕ → ℕ → List ℕ → Option (Option ℕ)
unfolding is_entry or_later
find_ref cs ip port [] = some none
find_ref cs ip port (p ∷ ps) = or_later (is_entry (cell p cs) ip port) (find_ref cs ip port ps)

-- assert(server->ref_count); server->ref_count--; and the entry is freed with its last reference.
unfoldable pub release_entry : ℕ → Option ServerEntry → Run (Unit {0})
release_entry p none t = none
release_entry p (some s) t =
    if s.ref_count == 0
    then none
    else if s.ref_count == 1
    then some (tt, record t { servers = free p t.servers })
    else some
        (tt, record t { servers = write p (record s { ref_count = s.ref_count - 1 }) t.servers })

unfoldable pub release : ℕ → Run (Unit {0})
unfolding release_entry
release p t = release_entry p (cell p t.servers) t

abbrev pub set_pointer : ℕ → ℕ → Option (List ℕ) → Option (List ℕ)
set_pointer i p none = none
set_pointer i p (some array) = some (set array i p)

-- The index found is released and set to NULL.
unfoldable pub remove_at : ℕ → IntfNode → Option ℕ → Run (Option ℕ)
unfolding release
remove_at np n none = pure none
remove_at np n (some i) = do
  p ← deref (get_elem? (pointers n.server_array n.addr_count) i)
  release p
  store_node np (record n { server_array = set_pointer i 0 n.server_array })
  pure (some i)

unfoldable pub remove_server_ref_entry : ℕ → ℕ → ℕ → Run (Option ℕ)
unfolding remove_at find_ref load_node
remove_server_ref_entry np ip port = do
  n ← load_node np
  found ← λ t. deref (find_ref t.servers ip port (pointers n.server_array n.addr_count)) t
  remove_at np n found

-- shash_find, and shash_delete of the entry that it finds.
unfoldable pub find_name : Text → List (Text × ℕ) → Option ℕ
find_name name [] = none
find_name name ((k, p) ∷ ns) = if same_text k name then some p else find_name name ns

unfoldable pub delete_name : Text → List (Text × ℕ) → List (Text × ℕ)
delete_name name [] = []
delete_name name ((k, p) ∷ ns) = if same_text k name then ns else (k, p) ∷ delete_name name ns

-- The deleted index is filled from the end, unless it was the only entry.
unfoldable pub compact : ℕ → ℕ → Option (List ℕ) → Option (Option (List ℕ))
unfolding push_deleted
compact count deleted none = none
compact count deleted (some array) =
    if (deleted == 0) && (count == 0)
    then some (some array)
    else Option.map some (push_deleted count deleted array)

-- serverArray[0] == NULL
abbrev pub starts_null : Option (List ℕ) → Bool
starts_null none = false
starts_null (some []) = false
starts_null (some (p ∷ ps)) = p == 0

-- The interface is freed when it has no server and no bootp gateway.
unfoldable pub drop_empty : ℕ → IntfNode → Run (Unit {0})
drop_empty np n t =
    if starts_null n.server_array && (n.addr_count == 0)
    then (if n.bootp_gw == 0
        then some
            (tt, record t { nodes = free np t.nodes; names = delete_name n.port_name t.names })
        else some (tt, record t { nodes = write np (record n { server_array = none }) t.nodes }))
    else some (tt, record t { nodes = write np n t.nodes })

unfoldable pub remove_found : ℕ → Option ℕ → Run Bool
unfolding load_node compact drop_empty delete_name
remove_found np none = pure false
remove_found np (some deleted) = do
  n ← load_node np
  array ← deref (compact (n.addr_count - 1) deleted n.server_array)
  drop_empty np (record n { addr_count = n.addr_count - 1; server_array = array })
  pure true

unfoldable pub remove_address : ℕ → ℕ → ℕ → Run Bool
unfolding remove_server_ref_entry remove_found
remove_address np ip port = do found ← remove_server_ref_entry np ip port; remove_found np found
