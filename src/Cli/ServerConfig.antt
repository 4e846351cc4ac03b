-- ===== src/Cli/ServerConfig.antt =====
-- dhcp_relay_helperaddressconfig of relay/udpfwd/src/cli/dhcp_relay_vty.c, udpfwd_serverconfig of
-- relay/udpfwd/src/cli/udpfwd_vty.c, and the commands that call them. The two functions have the same
-- shape; what differs is a `Kind`.
pub mod Totals
pub mod Updates
pub mod Bounds
pub mod Safe
pub mod Undone
pub mod RoundTrip
pub mod Effect
pub mod Count
pub mod Counted
pub mod Claims
pub mod Tests
use ops_ipapps.Base.{
  ℕ, Bool, true, false, not, ◌&&◌, Option, none, some, List, [], ◌∷◌, ◌++◌, ◌==◌, if◌then◌else◌,
  length, Text,
}
use ops_ipapps.Base.Fault.{◌>>=◌}
use ops_ipapps.Cli.{
  Answer, Ovsdb, Message, bootp_gateway, Smap, cmd_ovsdb_failure, max_helper_addresses, max_entries,
  entry_exists, helper_not_present, protocol_not_present, no_such_entries, no_default_vrf, failed,
  told, finish_txn,
}
use ops_ipapps.Cli.Servers.{
  Row, Db, Session, named, find_udpfwd_server_ip, server_address_maxcount_reached,
  udpfwd_serverupdate, udpfwd_setcommoncolumn, first_row, change_row,
}
use ops_ipapps.Cli.Decode.{
  Ipv4, UdpServer, Decoded, rejected, accepted, for_relay, for_forwarder, decode_server_param,
}

-- The row that a command is about, the column of a new row, whether a row stays without servers, and
-- three messages.
pub record Kind (E : Type 0) : Type 0 where
  pub mine : Row E → Bool
  pub fresh : E
  pub stays : Row E → Bool
  pub full : Message
  pub no_row : Message
  pub no_match : Message

-- What a command is about to do: give up its transaction with an answer, or commit a table.
pub data Step (E : Type 0) : Type 0 where
  gives_up : Answer (Db E) → Step E
  writes : List (Row E) → Step E

module _ {E : Type 0} where
  abbrev pub matches : Text → Option (Row E) → Option Bool
  matches address none = some false
  matches address (some row) = find_udpfwd_server_ip row.servers (length row.servers) address

  abbrev pub update_servers : Kind E → Bool → Text → Db E → Row E → Option (Step E)
  update_servers k action address db row = do
    servers ← udpfwd_serverupdate row.servers action address
    some (writes (change_row k.mine (some (record row { servers = servers })) db.rows))

  abbrev pub insert_row : Kind E → Text → Db E → Option (Row E) → Option (Step E)
  insert_row k address db none =
      some (gives_up (record { code = cmd_ovsdb_failure; said = some no_default_vrf; db = db }))
  insert_row k address db (some row) = do
    servers ← udpfwd_serverupdate row.servers true address
    some (writes (db.rows ++ record row { servers = servers; extra = k.fresh } ∷ []))

  abbrev pub blank_row : Kind E → Row E
  blank_row k = record { port = none; vrf = none; servers = []; extra = k.fresh }

  -- Past the test of the maximum.
  abbrev pub add_server : Kind E → Session → Text → Db E → Option (Row E) → Bool → Option (Step E)
  add_server k t address db none matched =
      if not t.inserts
      then some (gives_up (failed db))
      else insert_row k address db (udpfwd_setcommoncolumn t db (blank_row k))
  add_server k t address db (some row) false = update_servers k true address db row
  add_server k t address db (some row) true = some (gives_up (told entry_exists db))

  abbrev pub set_server : Kind E → Session → Text → Db E → Option (Row E) → Bool → Option (Step E)
  set_server k t address db row matched =
      if server_address_maxcount_reached t.index db.rows
      then some (gives_up (told k.full db))
      else add_server k t address db row matched

  abbrev pub unset_server : Kind E → Text → Db E → Option (Row E) → Bool → Option (Step E)
  unset_server k address db none matched = some (gives_up (told k.no_row db))
  unset_server k address db (some row) false = some (gives_up (told k.no_match db))
  unset_server k address db (some row) true =
      if (length row.servers == 1) && not (k.stays row)
      then some (writes (change_row k.mine none db.rows))
      else update_servers k false address db row

  abbrev pub end_step : Ovsdb (Db E) → Db E → Step E → Answer (Db E)
  end_step o db (gives_up answer) = answer
  end_step o db (writes rows) = finish_txn o db (record db { rows = rows })

  unfoldable pub next_step : Kind E → Session → Text → Bool → Db E → Option (Step E)
  next_step k t address set db =
      let row = first_row k.mine db.rows in
      do
        matched ← matches address row
        (if set
            then set_server k t address db row matched
            else unset_server k address db row matched)

  -- `none` where the code reads or writes out of an array.
  unfoldable pub server_config :
      Ovsdb (Db E) → Kind E → Session → Text → Bool → Db E → Option (Answer (Db E))
  unfolding next_step
  server_config o k t address set db =
      if not o.started
      then some (failed db)
      else (do step ← next_step k t address set db; some (end_step o db step))

-- buff != NULL
abbrev pub has_text : Option Text → Bool
has_text none = false
has_text (some text) = true

-- The row of the interface and the default VRF, which dhcp_relay_row_lookup gives the first of.
abbrev pub dhcp_relay_mine : {M : Type 0} → Session → Row M → Bool
dhcp_relay_mine t row = named t.index row.port && named t.default_vrf row.vrf

module _ {M : Type 0} (smap : Smap M) where
  abbrev pub helper_kind : Session → Kind M
  helper_kind t = record {
    mine = dhcp_relay_mine t;
    fresh = smap.empty;
    stays = λ row. has_text (smap.get row.extra bootp_gateway);
    full = max_helper_addresses;
    no_row = helper_not_present;
    no_match = helper_not_present;
  }

  unfoldable pub dhcp_relay_helperaddressconfig :
      Ovsdb (Db M) → Session → Text → Bool → Db M → Option (Answer (Db M))
  unfolding server_config
  dhcp_relay_helperaddressconfig o t address set db =
      server_config o (helper_kind t) t address set db

  abbrev decoded_helper : Ovsdb (Db M) → Session → Decoded → Bool → Db M → Option (Answer (Db M))
  decoded_helper o t (rejected message) set db = some (told message db)
  decoded_helper o t (accepted server) set db =
      dhcp_relay_helperaddressconfig o t server.ip_addr set db

  -- "ip helper-address" and "no ip helper-address"
  unfoldable pub ip_helper_address_configuration :
      Ovsdb (Db M) → Ipv4 → Session → Text → Db M → Option (Answer (Db M))
  ip_helper_address_configuration o ip t arg =
      decoded_helper o t (decode_server_param ip for_relay arg []) true

  unfoldable pub no_ip_helper_address_configuration :
      Ovsdb (Db M) → Ipv4 → Session → Text → Db M → Option (Answer (Db M))
  no_ip_helper_address_configuration o ip t arg =
      decoded_helper o t (decode_server_param ip for_relay arg []) false

-- The row of the interface, the default VRF and the UDP port, as udp_bcast_server_row_lookup finds it.
abbrev pub udp_bcast_server_mine : Session → ℕ → Row ℕ → Bool
udp_bcast_server_mine t udp_port row =
    named t.index row.port && (named t.default_vrf row.vrf && (row.extra == udp_port))

abbrev pub protocol_kind : Session → ℕ → Kind ℕ
protocol_kind t udp_port = record {
  mine = udp_bcast_server_mine t udp_port;
  fresh = udp_port;
  stays = λ row. false;
  full = max_entries;
  no_row = protocol_not_present;
  no_match = no_such_entries;
}

unfoldable pub udpfwd_serverconfig :
    Ovsdb (Db ℕ) → Session → UdpServer → Bool → Db ℕ → Option (Answer (Db ℕ))
unfolding server_config
udpfwd_serverconfig o t server set db =
    server_config o (protocol_kind t server.udp_port) t server.ip_addr set db

abbrev decoded_protocol : Ovsdb (Db ℕ) → Session → Decoded → Bool → Db ℕ → Option (Answer (Db ℕ))
decoded_protocol o t (rejected message) set db = some (told message db)
decoded_protocol o t (accepted server) set db = udpfwd_serverconfig o t server set db

-- "ip forward-protocol udp" and "no ip forward-protocol udp"
unfoldable pub cli_udpf_bcast_set_proto :
    Ovsdb (Db ℕ) → Ipv4 → Session → Text → Text → Db ℕ → Option (Answer (Db ℕ))
cli_udpf_bcast_set_proto o ip t address port =
    decoded_protocol o t (decode_server_param ip for_forwarder address port) true

unfoldable pub cli_udpf_bcast_no_set_proto :
    Ovsdb (Db ℕ) → Ipv4 → Session → Text → Text → Db ℕ → Option (Answer (Db ℕ))
cli_udpf_bcast_no_set_proto o ip t address port =
    decoded_protocol o t (decode_server_param ip for_forwarder address port) false
