-- ===== src/Cli/Gateway.antt =====
-- dhcp_relay_bootp_gateway_config of relay/udpfwd/src/cli/dhcp_relay_vty.c and the commands that call
-- it.
pub mod Tidy
pub mod Helpers
pub mod Sound
pub mod Reachable
pub mod Tests
use ops_ipapps.Base.{
  ℕ, suc, Bool, true, false, not, ◌&&◌, Option, none, some, List, [], ◌∷◌, ◌++◌, ◌==◌,
  if◌then◌else◌, Text, strncmp_eq,
}
use ops_ipapps.Base.Fault.{◌>>=◌}
use ops_ipapps.Relay.{same_text}
use ops_ipapps.Cli.{
  Answer, Ovsdb, Message, bootp_gateway, Smap, cmd_ovsdb_failure, no_default_vrf, invalid_address,
  broadcast_multicast_loopback, address_not_configured, gateway_not_configured, failed, told,
}
use ops_ipapps.Cli.Servers.{
  Row, Db, Port, Session, port_lookup, udp_bcast_config_vrf_lookup, first_row, change_row,
}
use ops_ipapps.Cli.Decode.{Ipv4}
use ops_ipapps.Cli.ServerConfig.{Step, gives_up, writes, end_step, dhcp_relay_mine}

-- strchr(text, '/') - text
abbrev pub slash : Text → Option ℕ
slash [] = none
slash (c ∷ cs) = let rest = next (slash cs) in if c == b'/' then some 0 else rest
  where
    next : Option ℕ → Option ℕ
    next none = none
    next (some n) = some (suc n)

-- !strncmp(gateway, address, maskPosition); `none` where strchr gives NULL.
abbrev pub same_up_to : Text → Text → Option ℕ → Option Bool
same_up_to gateway address none = none
same_up_to gateway address (some position) = some (strncmp_eq gateway address position)

abbrev pub any_same : Text → List Text → Option Bool
any_same gateway [] = some false
any_same gateway (address ∷ addresses) =
    let rest = any_same gateway addresses in
    do same ← same_up_to gateway address (slash address); (if same then some true else rest)

abbrev pub port_has : Text → Option Port → Option Bool
port_has gateway none = some false
port_has gateway (some p) = primary p.ip4_address
  where
    primary : Option Text → Option Bool
    primary none = any_same gateway p.ip4_address_secondary
    primary (some address) = do
      same ← same_up_to gateway address (slash address)
      (if same then some true else any_same gateway p.ip4_address_secondary)

module _ {M : Type 0} (smap : Smap M) where
  abbrev pub with_gateway : Text → Row M → Row M
  with_gateway gateway row = record row { extra = smap.replace row.extra bootp_gateway gateway }

  abbrev pub no_gateway : Row M → Row M
  no_gateway row = record row { extra = smap.remove row.extra bootp_gateway }

  -- The port and the VRF of a row that was just inserted.
  abbrev pub insert_gateway : Text → Db M → Port → Option Text → Step M
  insert_gateway gateway db p none =
      gives_up (record { code = cmd_ovsdb_failure; said = some no_default_vrf; db = db })
  insert_gateway gateway db p (some vrf) = writes (
      db.rows
      ++ with_gateway gateway
          (record { port = some p.name; vrf = some vrf; servers = []; extra = smap.empty })
        ∷ [])

  -- `none` where the row that the client library did not give is used.
  abbrev pub put_gateway : Session → Text → Db M → Option Port → Option (Row M) → Option (Step M)
  put_gateway t gateway db p (some row) =
      some (writes (change_row (dhcp_relay_mine t) (some (with_gateway gateway row)) db.rows))
  put_gateway t gateway db none none = none
  put_gateway t gateway db (some p) none =
      if t.inserts
      then some (insert_gateway gateway db p (udp_bcast_config_vrf_lookup t.default_vrf db.vrfs))
      else none

  abbrev pub set_gateway : Session → Text → Db M → Option (Row M) → Option (Step M)
  set_gateway t gateway db row = do
    matched ← port_has gateway (port_lookup t.index db.ports)
    (if matched
        then put_gateway t gateway db (port_lookup t.index db.ports) row
        else some (gives_up (told address_not_configured db)))

  -- buff && strcmp(buff, gatewayAddress) == 0
  abbrev pub is_gateway : Text → Option Text → Bool
  is_gateway gateway none = false
  is_gateway gateway (some old) = same_text old gateway

  -- The row without its gateway, deleted if it has no servers either.
  abbrev pub drop_gateway : Session → Db M → Row M → List Text → Step M
  drop_gateway t db row [] = writes (change_row (dhcp_relay_mine t) none db.rows)
  drop_gateway t db row (server ∷ servers) =
      writes (change_row (dhcp_relay_mine t) (some (no_gateway row)) db.rows)

  abbrev pub unset_gateway : Session → Text → Db M → Option (Row M) → Step M
  unset_gateway t gateway db none = gives_up (told gateway_not_configured db)
  unset_gateway t gateway db (some row) =
      if is_gateway gateway (smap.get row.extra bootp_gateway)
      then drop_gateway t db row row.servers
      else gives_up (told gateway_not_configured db)

  unfoldable pub gateway_step : Session → Text → Bool → Db M → Option (Step M)
  gateway_step t gateway set db =
      let row = first_row (dhcp_relay_mine t) db.rows in
      if set then set_gateway t gateway db row else some (unset_gateway t gateway db row)

  -- `none` where the code uses a NULL pointer.
  unfoldable pub dhcp_relay_bootp_gateway_config :
      Ovsdb (Db M) → Session → Text → Bool → Db M → Option (Answer (Db M))
  dhcp_relay_bootp_gateway_config o t gateway set db =
      if not o.started
      then some (failed db)
      else (do step ← gateway_step t gateway set db; some (end_step o db step))

  abbrev gateway_address :
      Ovsdb (Db M) → Ipv4 → Session → Text → Bool → Db M → Option ℕ → Option (Answer (Db M))
  gateway_address o ip t arg set db none = some (told invalid_address db)
  gateway_address o ip t arg set db (some addr) =
      if not (ip.is_valid addr)
      then some (told broadcast_multicast_loopback db)
      else dhcp_relay_bootp_gateway_config o t arg set db

  -- "ip bootp-gateway" and "no ip bootp-gateway"
  unfoldable pub ip_bootp_gateway_configuration :
      Ovsdb (Db M) → Ipv4 → Session → Text → Db M → Option (Answer (Db M))
  ip_bootp_gateway_configuration o ip t arg db =
      gateway_address o ip t arg true db (ip.inet_pton arg)

  unfoldable pub no_ip_bootp_gateway_configuration :
      Ovsdb (Db M) → Ipv4 → Session → Text → Db M → Option (Answer (Db M))
  no_ip_bootp_gateway_configuration o ip t arg db =
      gateway_address o ip t arg false db (ip.inet_pton arg)
