-- ===== src/Cli/ServerConfig/Claims.antt =====
-- What dhcp_relay_helperaddressconfig and udpfwd_serverconfig promise.
use ops_ipapps.Base.{ℕ, ◌≡◌, refl, subst, Bool, true, false, none, some, Text, arith, inl, inr}
use ops_ipapps.Cli.{Answer, Ovsdb, IsAtomic, committed, Smap, IsSmap, bootp_gateway, cmd_success}
use ops_ipapps.Cli.Outcomes.{done}
use ops_ipapps.Cli.Servers.{Db, Session, Port, port_lookup, first_row, change_row}
use ops_ipapps.Cli.Decode.{UdpServer}
use ops_ipapps.Cli.ServerConfig.{
  helper_kind, protocol_kind, dhcp_relay_helperaddressconfig, udpfwd_serverconfig,
  udp_bcast_server_mine,
}
use ops_ipapps.Cli.ServerConfig.Bounds.{IsBounded}
use ops_ipapps.Cli.ServerConfig.Safe.{Outcome, server_config-Outcome, Outcome-IsBounded}
use ops_ipapps.Cli.ServerConfig.RoundTrip.{IsKind, IsUseful, server_config-undone}
use ops_ipapps.Cli.ServerConfig.Effect.{Effect, Written-Effect}
use ops_ipapps.Cli.ServerConfig.Counted.{Counted, Written-Counted}

protocol_kind-IsKind : (t : Session) (udp_port : ℕ) → IsKind (protocol_kind t udp_port) t
protocol_kind-IsKind t udp_port = record {
  own = λ row e. ground arith;
  mine_free = λ row servers. refl;
  stays_free = λ row servers. refl;
  takes = λ row port vrf. ground arith;
  goes = λ row. refl;
}

module _ {M : Type 0} (smap : Smap M) where
  pub helper_kind-IsKind : (t : Session) → IsSmap smap → IsKind (helper_kind smap t) t
  helper_kind-IsKind t laws = record {
    own = λ row e. ground arith;
    mine_free = λ row servers. refl;
    stays_free = λ row servers. refl;
    takes = λ row port vrf. ground arith;
    goes = λ row. rw (laws.get-empty bootp_gateway) refl;
  }

  -- On a table with at most eight helper addresses on every interface, every run that sets or unsets
  -- an address ends without leaving an array, and leaves at most eight on every interface.
  pub dhcp_relay_helperaddressconfig-IsBounded :
      (o : Ovsdb (Db M)) (t : Session) (address : Text) (set : Bool) (db : Db M)
      → IsSmap smap
      → IsAtomic o
      → IsBounded db.rows
      → (a : Answer (Db M)) × (dhcp_relay_helperaddressconfig smap o t address set db ≡ some a)
        × IsBounded a.db.rows
  unfolding dhcp_relay_helperaddressconfig
  dhcp_relay_helperaddressconfig-IsBounded o t address set db laws atomic bound =
      let kind = helper_kind-IsKind t laws in
      let (a, runs, outcome) =
        server_config-Outcome o (helper_kind smap t) t address set db atomic kind.own bound in
      (a, runs, Outcome-IsBounded (helper_kind smap t) t address set db a bound outcome)

  -- A helper address that was set, in a session on a port that the database has, is unset again by
  -- the next command, and the database is then what it was before the two: on a table within the
  -- maximum whose rows without servers have a gateway, when both transactions are taken.
  pub dhcp_relay_helperaddressconfig-undone :
      (o o' : Ovsdb (Db M)) (t : Session) (address : Text) (db : Db M) (p : Port)
      (a : Answer (Db M))
      → IsSmap smap
      → IsAtomic o
      → IsAtomic o'
      → IsBounded db.rows
      → IsUseful (helper_kind smap t) db.rows
      → port_lookup t.index db.ports ≡ some p
      → dhcp_relay_helperaddressconfig smap o t address true db ≡ some a
      → a.code ≡ cmd_success
      → a.said ≡ none
      → o'.started ≡ true
      → committed (o'.finish a.db db).0 ≡ true
      → dhcp_relay_helperaddressconfig smap o' t address false a.db ≡ some (done db)
  unfolding dhcp_relay_helperaddressconfig
  dhcp_relay_helperaddressconfig-undone o o' t address db p a laws = λ atomic atomic'.
      server_config-undone o o' (helper_kind smap t) t address db p a atomic atomic'
        (helper_kind-IsKind t laws)

Outcome-Effect :
    (t : Session) (server : UdpServer) (set : Bool) (db : Db ℕ) (p : Port) (a : Answer (Db ℕ))
    → let k = protocol_kind t server.udp_port in
      first_row k.mine (change_row k.mine none db.rows) ≡ none
      → port_lookup t.index db.ports ≡ some p
      → a.code ≡ cmd_success
      → a.said ≡ none
      → Outcome k t server.ip_addr set db a
      → Effect k t server.ip_addr set db.rows a.db.rows
        × Counted t server.udp_port server.ip_addr set db.rows a.db.rows
Outcome-Effect t server set db p a one port ok quiet (inl (same, inl failed)) = cc
Outcome-Effect t server set db p a one port ok quiet (inl (same, inr said)) = absurd (said quiet)
Outcome-Effect t server set db p a one port ok quiet (inr (rows, written, bound, is)) =
    let kind = protocol_kind-IsKind t server.udp_port in
    rw is (
      Written-Effect (protocol_kind t server.udp_port) t server.ip_addr set db p rows kind one port
          written,
      Written-Counted t server.udp_port server.ip_addr set db p rows one port written,
    )

-- A forward-protocol command that reports success and says nothing, in a session on a port that the
-- database has, on a table within the maximum and with at most one row for the session's interface,
-- default VRF and the command's UDP port: setting an address adds it at the end of the addresses for
-- that place, where it was not before; unsetting takes it away, where it was before; every other
-- address, and this one for every other interface, VRF or UDP port, stands in the table as often as
-- before, and the rows of the other interfaces stay.
pub udpfwd_serverconfig-Effect :
    (o : Ovsdb (Db ℕ)) (t : Session) (server : UdpServer) (set : Bool) (db : Db ℕ) (p : Port)
    (a : Answer (Db ℕ))
    → IsAtomic o
    → IsBounded db.rows
    → (let mine = udp_bcast_server_mine t server.udp_port in
        first_row mine (change_row mine none db.rows) ≡ none)
    → port_lookup t.index db.ports ≡ some p
    → udpfwd_serverconfig o t server set db ≡ some a
    → a.code ≡ cmd_success
    → a.said ≡ none
    → Effect (protocol_kind t server.udp_port) t server.ip_addr set db.rows a.db.rows
      × Counted t server.udp_port server.ip_addr set db.rows a.db.rows
unfolding udpfwd_serverconfig
udpfwd_serverconfig-Effect o t server set db p a atomic bound one port runs ok quiet =
    let k = protocol_kind t server.udp_port in
    let kind = protocol_kind-IsKind t server.udp_port in
    let (b, runs', outcome) =
      server_config-Outcome o k t server.ip_addr set db atomic kind.own bound in
    let same : b ≡ a = cc in
    Outcome-Effect t server set db p a one port ok quiet
      (subst (Outcome k t server.ip_addr set db) same outcome)
