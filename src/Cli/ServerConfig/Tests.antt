-- ===== src/Cli/ServerConfig/Tests.antt =====
-- A helper address and a forward protocol on one interface.
use ops_ipapps.Base.{ℕ, ◌≡◌, refl, true, false, none, some, [], ◌∷◌, Text, arith}
use ops_ipapps.Cli.{Answer, told, finish_txn, entry_exists}
use ops_ipapps.Cli.Outcomes.{done}
use ops_ipapps.Cli.Tests.{Column, column_map, column_map-IsSmap, takes_all, takes_all-IsAtomic}
use ops_ipapps.Cli.Servers.{
  Db, Port, Session, find_udpfwd_server_ip, server_address_maxcount_reached, udpfwd_serverupdate,
  udp_bcast_config_vrf_lookup, udpfwd_setcommoncolumn,
}
use ops_ipapps.Cli.Decode.{UdpServer}
use ops_ipapps.Cli.ServerConfig.{
  next_step, server_config, dhcp_relay_helperaddressconfig, udpfwd_serverconfig, protocol_kind,
}
use ops_ipapps.Cli.ServerConfig.Bounds.{IsBounded}
use ops_ipapps.Cli.ServerConfig.Effect.{Effect}
use ops_ipapps.Cli.ServerConfig.Counted.{Counted}
use ops_ipapps.Cli.ServerConfig.Claims.{
  dhcp_relay_helperaddressconfig-IsBounded, dhcp_relay_helperaddressconfig-undone,
  udpfwd_serverconfig-Effect,
}

abbrev eth : Text
eth = b'e' ∷ b't' ∷ b'h' ∷ []

abbrev vrf : Text
vrf = b'v' ∷ []

abbrev address : Text
address = b'1' ∷ []

abbrev eth_port : Port
eth_port = record { name = eth; ip4_address = none; ip4_address_secondary = [] }

abbrev session : Session
session = record { index = eth; default_vrf = vrf; inserts = true }

abbrev no_rows : Db Column
no_rows = record { rows = []; ports = eth_port ∷ []; vrfs = vrf ∷ [] }

abbrev one_row : Db Column
one_row = record no_rows {
  rows =
      record { port = some eth; vrf = some vrf; servers = address ∷ []; extra = column_map.empty }
      ∷ [];
}

no_rows-IsBounded : IsBounded no_rows.rows
no_rows-IsBounded name = omega arith

helper_set :
    dhcp_relay_helperaddressconfig column_map takes_all session address true no_rows
    ≡ some (done one_row)
unfolding dhcp_relay_helperaddressconfig server_config next_step find_udpfwd_server_ip
    server_address_maxcount_reached udpfwd_serverupdate udp_bcast_config_vrf_lookup
    udpfwd_setcommoncolumn finish_txn
helper_set = refl

-- Set again, the address is refused.
helper_set_again :
    dhcp_relay_helperaddressconfig column_map takes_all session address true one_row
    ≡ some (told entry_exists one_row)
unfolding dhcp_relay_helperaddressconfig server_config next_step find_udpfwd_server_ip
    server_address_maxcount_reached udpfwd_serverupdate udp_bcast_config_vrf_lookup
    udpfwd_setcommoncolumn finish_txn
helper_set_again = refl

dhcp_relay_helperaddressconfig-IsBounded_example :
    (a : Answer (Db Column)) × (dhcp_relay_helperaddressconfig column_map takes_all session address
        true no_rows
      ≡ some a)
    × IsBounded a.db.rows
dhcp_relay_helperaddressconfig-IsBounded_example =
    dhcp_relay_helperaddressconfig-IsBounded column_map takes_all session address true no_rows
      column_map-IsSmap takes_all-IsAtomic no_rows-IsBounded

dhcp_relay_helperaddressconfig-undone_example :
    dhcp_relay_helperaddressconfig column_map takes_all session address false one_row
    ≡ some (done no_rows)
dhcp_relay_helperaddressconfig-undone_example =
    dhcp_relay_helperaddressconfig-undone column_map takes_all takes_all session address no_rows
      eth_port (done one_row) column_map-IsSmap takes_all-IsAtomic takes_all-IsAtomic
      no_rows-IsBounded tt refl helper_set refl refl refl refl

abbrev tftp_server : UdpServer
tftp_server = record { ip_addr = address; udp_port = 69 }

abbrev no_servers : Db ℕ
no_servers = record { rows = []; ports = eth_port ∷ []; vrfs = vrf ∷ [] }

abbrev one_server : Db ℕ
one_server = record no_servers {
  rows = record { port = some eth; vrf = some vrf; servers = address ∷ []; extra = 69 } ∷ [];
}

protocol_set :
    udpfwd_serverconfig takes_all session tftp_server true no_servers ≡ some (done one_server)
unfolding udpfwd_serverconfig server_config next_step find_udpfwd_server_ip
    server_address_maxcount_reached udpfwd_serverupdate udp_bcast_config_vrf_lookup
    udpfwd_setcommoncolumn finish_txn
protocol_set = refl

udpfwd_serverconfig-Effect_example :
    Effect (protocol_kind session 69) session address true no_servers.rows one_server.rows
    × Counted session 69 address true no_servers.rows one_server.rows
udpfwd_serverconfig-Effect_example =
    udpfwd_serverconfig-Effect takes_all session tftp_server true no_servers eth_port
      (done one_server) takes_all-IsAtomic (λ name. omega arith) refl refl protocol_set refl refl
