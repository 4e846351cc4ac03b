-- ===== src/Cli/Gateway/Tests.antt =====
-- A gateway on an interface whose address it is.
use ops_ipapps.Base.{◌≡◌, refl, true, false, some, [], ◌∷◌, Text}
use ops_ipapps.Cli.{bootp_gateway, finish_txn}
use ops_ipapps.Cli.Outcomes.{done}
use ops_ipapps.Cli.Tests.{Column, column_map, column_map-IsSmap, takes_all, takes_all-IsAtomic}
use ops_ipapps.Cli.Servers.{Db, Port, Session, udp_bcast_config_vrf_lookup}
use ops_ipapps.Cli.Gateway.{gateway_step, dhcp_relay_bootp_gateway_config}
use ops_ipapps.Cli.Gateway.Sound.{IsTable}
use ops_ipapps.Cli.Gateway.Reachable.{start, gateway, Reachable-IsTable}

abbrev eth : Text
eth = b'e' ∷ []

-- "1/8", and a gateway that has the address as a prefix only.
abbrev eth_port : Port
eth_port = record {
  name = eth;
  ip4_address = some (b'1' ∷ b'/' ∷ b'8' ∷ []);
  ip4_address_secondary = [];
}

abbrev longer : Text
longer = b'1' ∷ b'9' ∷ []

abbrev session : Session
session = record { index = eth; default_vrf = eth; inserts = true }

abbrev before : Db Column
before = record { rows = []; ports = eth_port ∷ []; vrfs = eth ∷ [] }

abbrev after : Db Column
after = record before {
  rows =
      record {
        port = some eth;
        vrf = some eth;
        servers = [];
        extra = column_map.replace column_map.empty bootp_gateway longer;
      }
      ∷ [];
}

-- The gateway is taken for the interface's address.
prefix_accepted :
    dhcp_relay_bootp_gateway_config column_map takes_all session longer true before
    ≡ some (done after)
unfolding dhcp_relay_bootp_gateway_config gateway_step udp_bcast_config_vrf_lookup finish_txn
prefix_accepted = refl

gateway_unset :
    dhcp_relay_bootp_gateway_config column_map takes_all session longer false after
    ≡ some (done before)
unfolding dhcp_relay_bootp_gateway_config gateway_step udp_bcast_config_vrf_lookup finish_txn
gateway_unset = refl

Reachable-IsTable_example : IsTable column_map after.rows
Reachable-IsTable_example = Reachable-IsTable column_map column_map-IsSmap after (
    gateway takes_all session longer true before (done after) (start (eth_port ∷ []) (eth ∷ []))
      takes_all-IsAtomic prefix_accepted)
