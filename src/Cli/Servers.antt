-- ===== src/Cli/Servers.antt =====
-- The server rows of the tables DHCP_Relay and UDP_Bcast_Forwarder_Server, and the functions of
-- relay/udpfwd/src/cli/udpfwd_vty_utils.c on them.
use ops_ipapps.Base.{
  ℕ, ◌+◌, ◌-◌, ◌*◌, ◌%◌, ◌^◌, Bool, true, false, Option, none, some, List, [], ◌∷◌, ◌++◌, leb, ltb,
  ◌==◌, if◌then◌else◌, length, Text,
}
use ops_ipapps.Relay.{same_text}

-- A row of either table: the names of its port and its VRF, its servers in n_ipv4_ucast_server
-- texts, and its other column, which is other_config or udp_dport.
pub record Row {ℓ} (E : Type ℓ) : Type ℓ where
  pub port : Option Text
  pub vrf : Option Text
  pub servers : List Text
  pub extra : E

-- The columns of the Port table that the commands read.
pub record Port : Type 0 where
  pub name : Text
  pub ip4_address : Option Text
  pub ip4_address_secondary : List Text

-- The database as a command on one of the tables sees it; a VRF is its name.
pub record Db {ℓ} (E : Type ℓ) : Type ℓ where
  pub rows : List (Row E)
  pub ports : List Port
  pub vrfs : List Text

-- The terminal's interface `vty->index`, DEFAULT_VRF_NAME, and whether the client library gives a
-- row for an insertion.
pub record Session : Type 0 where
  pub index : Text
  pub default_vrf : Text
  pub inserts : Bool

-- row && !strcmp(row->name, name)
abbrev pub named : Text → Option Text → Bool
named name none = false
named name (some other) = same_text other name

-- strcmp in search of a text among the first `limit` entries; `none` for a read past the array.
abbrev pub search : Text → List Text → ℕ → Option Bool
search text [] limit = if limit == 0 then some false else none
search text (server ∷ servers) limit =
    let rest = search text servers (limit - 1) in
    if limit == 0 then some false else if same_text text server then some true else rest

-- An int8_t that is compared with a size_t.
abbrev pub size_of_int8 : ℕ → ℕ
size_of_int8 count = if ltb (count % 256) 128 then count % 256 else 2 ^ 64 - (256 - count % 256)

-- The count is n_ipv4_ucast_server, passed as an int8_t.
unfoldable pub find_udpfwd_server_ip : List Text → ℕ → Text → Option Bool
find_udpfwd_server_ip servers count address = search address servers (size_of_int8 count)

-- MAX_HELPER_ADDRESSES_PER_INTERFACE and MAX_UDPFWD_SERVER_ADDRESSES_PER_INTERFACE
abbrev pub max_addresses : ℕ
max_addresses = 8

-- The texts of the rows are in memory, so that a size_t holds their number.
abbrev pub count_reached {ℓ} : {E : Type ℓ} → Text → List (Row E) → ℕ → Bool
count_reached name [] entries = false
count_reached name (row ∷ rows) entries =
    let more = count_reached name rows (entries + length row.servers) in
    let same = count_reached name rows entries in
    if named name row.port
    then (if leb max_addresses (entries + length row.servers) then true else more)
    else same

unfoldable pub server_address_maxcount_reached {ℓ} : {E : Type ℓ} → Text → List (Row E) → Bool
server_address_maxcount_reached name rows = count_reached name rows 0

-- The entries that are not the address.
abbrev pub without : Text → List Text → List Text
without address [] = []
without address (server ∷ servers) =
    let rest = without address servers in if same_text address server then rest else server ∷ rest

-- The bytes that xmalloc gives for a number of servers, and those of a number of pointers.
abbrev bytes_got : ℕ → ℕ
bytes_got n = 15 * n

abbrev bytes_used : ℕ → ℕ
bytes_used n = 8 * n

-- `none` where the new array would not fit in what xmalloc gave for it.
abbrev fitting : ℕ → List Text → Option (List Text)
fitting got servers =
    if leb (bytes_used (length servers)) (bytes_got got) then some servers else none

-- The new array of servers, to add an address or to delete it.
unfoldable pub udpfwd_serverupdate : List Text → Bool → Text → Option (List Text)
udpfwd_serverupdate servers true address = fitting (length servers + 1) (servers ++ address ∷ [])
udpfwd_serverupdate [] false address = none
udpfwd_serverupdate (server ∷ servers) false address =
    fitting (length servers) (without address (server ∷ servers))

-- The first port of the name, and the first VRF.
abbrev pub port_lookup : Text → List Port → Option Port
port_lookup name [] = none
port_lookup name (p ∷ ports) =
    let rest = port_lookup name ports in if same_text p.name name then some p else rest

unfoldable pub udp_bcast_config_vrf_lookup : Text → List Text → Option Text
udp_bcast_config_vrf_lookup name [] = none
udp_bcast_config_vrf_lookup name (vrf ∷ vrfs) =
    let rest = udp_bcast_config_vrf_lookup name vrfs in
    if same_text vrf name then some vrf else rest

module _ {ℓ} {E : Type ℓ} where
  abbrev pub with_port : Option Port → Row E → Row E
  with_port none row = row
  with_port (some p) row = record row { port = some p.name }

  abbrev pub with_vrf : Option Text → Row E → Option (Row E)
  with_vrf none row = none
  with_vrf (some vrf) row = some (record row { vrf = some vrf })

  -- `none` is the result false. The VRF that was found has the name, so the strcmp after it holds.
  unfoldable pub udpfwd_setcommoncolumn : Session → Db E → Row E → Option (Row E)
  unfolding udp_bcast_config_vrf_lookup
  udpfwd_setcommoncolumn t db row =
      with_vrf (udp_bcast_config_vrf_lookup t.default_vrf db.vrfs)
        (with_port (port_lookup t.index db.ports) row)

  -- The rows in the order of the table: the first that passes a test, and a change of that row,
  -- `none` to delete it.
  abbrev pub first_row : (Row E → Bool) → List (Row E) → Option (Row E)
  first_row test [] = none
  first_row test (row ∷ rows) =
      let rest = first_row test rows in if test row then some row else rest

  abbrev pub instead : Option (Row E) → List (Row E) → List (Row E)
  instead none rows = rows
  instead (some row) rows = row ∷ rows

  abbrev pub change_row : (Row E → Bool) → Option (Row E) → List (Row E) → List (Row E)
  change_row test new [] = []
  change_row test new (row ∷ rows) =
      let rest = change_row test new rows in if test row then instead new rows else row ∷ rest
