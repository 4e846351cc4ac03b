-- ===== src/Cli.antt =====
-- What the commands of relay/udpfwd/src/cli share: the result codes, the messages to the terminal,
-- transactions on the database and its string maps.
pub mod RelayConfig
pub mod RelayRequest
pub mod RelayCommands
pub mod Asked
pub mod Wishes
pub mod Outcomes
pub mod Columns
pub mod Show
pub mod Daemon
pub mod Servers
pub mod Decode
pub mod ServerConfig
pub mod Gateway
pub mod Forwarding
pub mod Tests
use ops_ipapps.Base.{◌≡◌, Bool, true, false, Option, none, some, if◌then◌else◌, Text}

pub data CmdResult : Type 0 where
  cmd_success cmd_ovsdb_failure : CmdResult

-- What vty_out tells the user.
pub data Message : Type 0 where
  keep_and_validate max_helper_addresses max_entries entry_exists helper_not_present : Message
  protocol_not_present no_such_entries no_default_vrf invalid_address : Message
  broadcast_multicast_loopback multicast_loopback invalid_udp_port : Message
  address_not_configured gateway_not_configured not_on_any_interface : Message

-- What a command leaves: its result, what it said, and the database.
pub record Answer (S : Type 0) : Type 0 where
  pub code : CmdResult
  pub said : Option Message
  pub db : S

-- The values of ovsdb_idl_txn_status that the commands tell apart.
pub data TxnStatus : Type 0 where
  txn_success txn_unchanged txn_other : TxnStatus

-- The OVSDB client: whether cli_do_config_start gives a transaction, and what cli_do_config_finish
-- makes of a database and what the command wrote in it.
pub record Ovsdb (S : Type 0) : Type 0 where
  pub started : Bool
  pub finish : S → S → TxnStatus × S

-- txn_status == TXN_SUCCESS || txn_status == TXN_UNCHANGED
abbrev pub committed : TxnStatus → Bool
committed txn_other = false
committed _ = true

-- A transaction takes all that was written or nothing.
pub record IsAtomic {S : Type 0} (o : Ovsdb S) : Type 0 where
  pub taken : (old new : S) → committed (o.finish old new).0 ≡ true → (o.finish old new).1 ≡ new
  pub refused : (old new : S) → committed (o.finish old new).0 ≡ false → (o.finish old new).1 ≡ old

-- The keys of the columns dhcp_config and other_config.
pub data Key : Type 0 where
  v4relay_disabled v4relay_hop_count_increment_disabled v4relay_option82_enabled : Key
  v4relay_option82_validation_enabled v4relay_option82_policy v4relay_option82_remote_id : Key
  udp_bcast_fwd_enabled bootp_gateway : Key

abbrev pub key_eq : Key → Key → Bool
key_eq v4relay_disabled v4relay_disabled = true
key_eq v4relay_hop_count_increment_disabled v4relay_hop_count_increment_disabled = true
key_eq v4relay_option82_enabled v4relay_option82_enabled = true
key_eq v4relay_option82_validation_enabled v4relay_option82_validation_enabled = true
key_eq v4relay_option82_policy v4relay_option82_policy = true
key_eq v4relay_option82_remote_id v4relay_option82_remote_id = true
key_eq udp_bcast_fwd_enabled udp_bcast_fwd_enabled = true
key_eq bootp_gateway bootp_gateway = true
key_eq _ _ = false

-- An empty map and smap_get, smap_replace and smap_remove of the OVS library.
pub record Smap (M : Type 0) : Type 0 where
  pub empty : M
  pub get : M → Key → Option Text
  pub replace : M → Key → Text → M
  pub remove : M → Key → M

pub record IsSmap {M : Type 0} (smap : Smap M) : Type 0 where
  pub get-empty : (k : Key) → smap.get smap.empty k ≡ none
  pub get-replace :
      (m : M) (k j : Key) (v : Text)
      → smap.get (smap.replace m k v) j ≡ (if key_eq k j then some v else smap.get m j)
  pub get-remove :
      (m : M) (k j : Key)
      → smap.get (smap.remove m k) j ≡ (if key_eq k j then none else smap.get m j)

-- A command that gave up its transaction, or had none.
abbrev pub failed : {S : Type 0} → S → Answer S
failed s = record { code = cmd_ovsdb_failure; said = none; db = s }

abbrev pub told : {S : Type 0} → Message → S → Answer S
told message s = record { code = cmd_success; said = some message; db = s }

abbrev finished : {S : Type 0} → TxnStatus × S → Answer S
finished (status, s) = record {
  code = if committed status then cmd_success else cmd_ovsdb_failure;
  said = none;
  db = s;
}

-- The end of a command: cli_do_config_finish and its status.
unfoldable pub finish_txn : {S : Type 0} → Ovsdb S → S → S → Answer S
finish_txn o old new = finished (o.finish old new)
