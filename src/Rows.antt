-- ===== src/Rows.antt =====
-- The rows of the database and what udpfwd_config.c does about them: this file has the loops over an
-- interface's servers that the handlers share, and the handlers of deleted rows.
pub mod Change
pub mod Dispatch
pub mod Removal
pub mod Deletion
pub mod Freed
pub mod Storing
pub mod Update
pub mod Reachable
pub mod Tests
use ops_ipapps.Base.{
  ℕ, zero, suc, Bool, true, false, ◌&&◌, ◌||◌, not, Option, none, some, List, [], ◌∷◌, leb, ◌==◌,
  if◌then◌else◌, length, Text, strncmp_eq,
}
use mathlib.Core.Option
use ops_ipapps.Tables.{
  ServerEntry, IntfNode, Tables, Run, pure, ◌>>=◌, ◌>>◌, deref, load_node, store_node, pointers,
  max_servers, remove_address,
}
use ops_ipapps.Tables.Heap.{Cells, cell}

-- A row of DHCP_Relay: the name of its port, whether it has a VRF, the columns, and whether they and
-- the row have changed.
pub record DhcpRelayRow : Type 0 where
  pub port : Option Text
  pub vrf : Bool
  pub other_config_modified : Bool
  pub bootp_gateway : Option Text
  pub servers_modified : Bool
  pub ipv4_ucast_server : List Text
  pub changed : Bool

-- A row of UDP_Bcast_Forwarder_Server.
pub record BcastForwarderRow : Type 0 where
  pub src_port : Option Text
  pub dest_vrf : Bool
  pub udp_dport : ℕ
  pub ipv4_ucast_server : List Text
  pub changed : Bool

abbrev pub dhcps_port : ℕ
dhcps_port = 67

-- inet_aton's result is a usable address unless it fails or gives 0.
abbrev pub usable : Option ℕ → Option ℕ
usable none = none
usable (some ip) = if ip == 0 then none else some ip

abbrev pub is_ip : ℕ → Option ℕ → Bool
is_ip ip none = false
is_ip ip (some other) = ip == other

-- The local array of 16 servers: a seventeenth write is a fault, and so is the read behind the
-- array by the loop that goes on to the first address 0.
unfoldable pub until_zero : ℕ → List (ℕ × ℕ) → Option (List (ℕ × ℕ))
until_zero zero ks = none
until_zero (suc slots) [] = some []
until_zero (suc slots) ((ip, port) ∷ ks) =
    if ip == 0 then some [] else Option.map (λ l. (ip, port) ∷ l) (until_zero slots ks)

unfoldable pub local_array : List (ℕ × ℕ) → Option (List (ℕ × ℕ))
unfolding until_zero
local_array ks = if leb (length ks) max_servers then until_zero max_servers ks else none

-- The servers of the pointers for which the test holds.
unfoldable pub collected :
    (ℕ → ℕ → Bool) → Option ServerEntry → Option (List (ℕ × ℕ)) → Option (List (ℕ × ℕ))
collected test none rest = none
collected test (some s) none = none
collected test (some s) (some ks) =
    if test s.ip_address s.udp_port then some ((s.ip_address, s.udp_port) ∷ ks) else some ks

unfoldable pub collect : (ℕ → ℕ → Bool) → Cells ServerEntry → List ℕ → Option (List (ℕ × ℕ))
unfolding collected
collect test cs [] = some []
collect test cs (p ∷ ps) = collected test (cell p cs) (collect test cs ps)

unfoldable pub remove_servers : ℕ → List (ℕ × ℕ) → Run (Unit {0})
remove_servers np [] = pure tt
remove_servers np ((ip, port) ∷ ks) = do remove_address np ip port; remove_servers np ks

-- The servers for which the test holds are collected, and then removed.
unfoldable pub remove_collected : (ℕ → ℕ → Bool) → ℕ → Run (Unit {0})
unfolding load_node collect local_array remove_servers
remove_collected test np = do
  n ← load_node np
  ks ← λ t. deref (collect test t.servers (pointers n.server_array n.addr_count)) t
  marked ← deref (local_array ks)
  remove_servers np marked

-- !strncmp(port->name, name, strlen(port->name))
abbrev pub names_port : Option Text → Text → Bool
names_port none name = false
names_port (some port) name = strncmp_eq port name (length port)

unfoldable pub relay_row_found : List DhcpRelayRow → Text → Bool
relay_row_found [] name = false
relay_row_found (rec ∷ rows) name = names_port rec.port name || relay_row_found rows name

abbrev pub is_dhcps : ℕ → ℕ → Bool
is_dhcps ip port = port == dhcps_port

unfoldable pub relay_node_delete : Bool → ℕ → Run (Unit {0})
unfolding load_node remove_collected
relay_node_delete true np = pure tt
relay_node_delete false np = do
  n ← load_node np
  store_node np (record n { bootp_gw = 0 })
  remove_collected is_dhcps np

-- SHASH_FOR_EACH_SAFE over the names as they are at the start
unfoldable pub walk : (Text → ℕ → Run (Unit {0})) → List (Text × ℕ) → Run (Unit {0})
walk visit [] = pure tt
walk visit ((name, np) ∷ ns) = do visit name np; walk visit ns

unfoldable pub dhcp_relay_row_delete : List DhcpRelayRow → Run (Unit {0})
unfolding walk relay_row_found relay_node_delete
dhcp_relay_row_delete rows t =
    walk (λ name np. relay_node_delete (relay_row_found rows name) np) t.names t

module _ (inet_aton : Text → Option ℕ) where
  unfoldable pub server_ip_exists : ℕ → List Text → Bool
  server_ip_exists ip [] = false
  server_ip_exists ip (server ∷ servers) =
      is_ip ip (usable (inet_aton server)) || server_ip_exists ip servers

  -- A row without a port is one for every port.
  abbrev pub src_port_matches : Option Text → Text → Bool
  src_port_matches none name = true
  src_port_matches (some port) name = strncmp_eq port name (length port)

  abbrev pub row_keeps : BcastForwarderRow → Text → ℕ → ℕ → Bool
  unfolding server_ip_exists
  row_keeps rec name ip port =
      src_port_matches rec.src_port name
      && not ((dhcps_port == rec.udp_dport) || not (rec.udp_dport == port))
      && server_ip_exists ip rec.ipv4_ucast_server

  unfoldable pub bcast_row_found : List BcastForwarderRow → Text → ℕ → ℕ → Bool
  unfolding row_keeps
  bcast_row_found [] name ip port = false
  bcast_row_found (rec ∷ rows) name ip port =
      row_keeps rec name ip port || bcast_row_found rows name ip port

  unfoldable pub bcast_node_delete : List BcastForwarderRow → ℕ → Run (Unit {0})
  unfolding load_node bcast_row_found remove_collected
  bcast_node_delete rows np = do
    n ← load_node np
    remove_collected
        (λ ip port. not (dhcps_port == port) && not (bcast_row_found rows n.port_name ip port)) np

  unfoldable pub udp_bcast_forwarder_row_delete : List BcastForwarderRow → Run (Unit {0})
  unfolding walk bcast_node_delete
  udp_bcast_forwarder_row_delete rows t = walk (λ name np. bcast_node_delete rows np) t.names t
