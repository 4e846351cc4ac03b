-- ===== src/Cli/Tests.antt =====
-- The DHCP relay commands on concrete databases, with a string map that is a function.
use ops_ipapps.Base.{◌≡◌, refl, true, Option, none, some, if◌then◌else◌, Text, arith, pos}
use ops_ipapps.Feature.{enable, get_feature_status, set_feature_status}
use ops_ipapps.Global.{GlobalConfig, replace, remote_id_mac, true_text, process_globalconfig_update}
use ops_ipapps.Cli.{
  Answer, keep_and_validate, told, finish_txn, Ovsdb, IsAtomic, Key, key_eq, Smap, IsSmap,
  cmd_success, txn_success, v4relay_option82_policy,
}
use ops_ipapps.Cli.RelayConfig.{
  keep_text, dhcp_relay_config, update_column, update_feature_key, update_option_82_policy,
  update_option_82_remote_id,
}
use ops_ipapps.Cli.RelayCommands.{
  Command, option82, option82_drop_mac, execute, dhcp_relay_options_configuration,
}
use ops_ipapps.Cli.RelayRequest.{validate_text, dhcp_relay_drop_remote_id_mac_option_configuration}
use ops_ipapps.Cli.Asked.{granted}
use ops_ipapps.Cli.Wishes.{wish}
use ops_ipapps.Cli.Outcomes.{Outcome, execute-Outcome, done}
use ops_ipapps.Cli.Columns.{IsConfig, Reachable, start, command, Reachable-IsConfig}
use ops_ipapps.Cli.Show.{
  Shown, Agrees, row_of, show_dhcp_relay_config, show_dhcp_relay_config-Agrees,
}
use ops_ipapps.Cli.Daemon.{ObeysIn, execute-Obeys}
use ops_ipapps.Cli.Forwarding.{
  udpfwd_globalconfig, SetsForwarder, udpfwd_globalconfig-SetsForwarder,
}

abbrev pub Column : Type 0
Column = Key → Option Text

abbrev pub column_map : Smap Column
column_map = record {
  empty = λ k. none;
  get = λ m k. m k;
  replace = λ m k v j. if key_eq k j then some v else m j;
  remove = λ m k j. if key_eq k j then none else m j;
}

pub column_map-IsSmap : IsSmap column_map
column_map-IsSmap = record {
  get-empty = λ k. refl;
  get-replace = λ m k j v. refl;
  get-remove = λ m k j. refl;
}

-- A database that takes every transaction.
abbrev pub takes_all : {S : Type 0} → Ovsdb S
takes_all = record { started = true; finish = λ old new. (txn_success, new) }

pub takes_all-IsAtomic : {S : Type 0} → IsAtomic (takes_all {S = S})
takes_all-IsAtomic = record { taken = λ old new e. refl; refused = λ old new e. cc }

abbrev nothing_set : Column
nothing_set = column_map.empty

-- "dhcp-relay option 82 drop mac validate", and the column that it leaves.
abbrev drop_mac : Command
drop_mac = option82_drop_mac validate_text

abbrev dropping : Column
dropping = granted column_map (wish drop_mac) nothing_set

drop_mac_runs :
    execute column_map takes_all drop_mac (some nothing_set) ≡ some (done (some dropping))
unfolding execute dhcp_relay_config update_column update_feature_key update_option_82_policy
    update_option_82_remote_id dhcp_relay_drop_remote_id_mac_option_configuration finish_txn
    get_feature_status set_feature_status
drop_mac_runs = refl

execute-Outcome_example :
    (a : Answer (Option Column)) × (execute column_map takes_all drop_mac (some nothing_set)
      ≡ some a)
    × Outcome column_map takes_all (wish drop_mac) drop_mac (some nothing_set) a
execute-Outcome_example =
    execute-Outcome column_map column_map-IsSmap takes_all takes_all-IsAtomic drop_mac
      (some nothing_set) refl

abbrev config : GlobalConfig
config = record {
  feature_config = record { config = 6; policy = replace; r_id = remote_id_mac };
  stats_interval = pos 5000;
}

execute-Obeys_example : ObeysIn column_map (wish drop_mac) config (done (some dropping))
execute-Obeys_example =
    execute-Obeys column_map takes_all drop_mac (some nothing_set) config (done (some dropping))
      column_map-IsSmap takes_all-IsAtomic (omega arith) refl drop_mac_runs refl refl

dropping-Reachable : Reachable column_map dropping
dropping-Reachable =
    command nothing_set dropping drop_mac takes_all (done (some dropping))
      (start nothing_set (λ k. refl)) takes_all-IsAtomic drop_mac_runs refl

Reachable-IsConfig_example : IsConfig column_map dropping
Reachable-IsConfig_example =
    Reachable-IsConfig column_map column_map-IsSmap dropping dropping-Reachable

show_dhcp_relay_config-Agrees_example :
    (s : Shown) × (show_dhcp_relay_config column_map (some dropping) ≡ (cmd_success, some s))
    × Agrees (process_globalconfig_update (some (row_of column_map dropping)) config) s
show_dhcp_relay_config-Agrees_example =
    show_dhcp_relay_config-Agrees column_map dropping config (omega arith)
      (Reachable-IsConfig column_map column_map-IsSmap dropping dropping-Reachable) (λ e. cc)

forwarding_runs :
    (udpfwd_globalconfig column_map takes_all true_text (some nothing_set)).code ≡ cmd_success
unfolding udpfwd_globalconfig finish_txn
forwarding_runs = refl

udpfwd_globalconfig-SetsForwarder_example :
    SetsForwarder column_map enable
      (row_of column_map nothing_set)
      config
      (udpfwd_globalconfig column_map takes_all true_text (some nothing_set))
udpfwd_globalconfig-SetsForwarder_example =
    udpfwd_globalconfig-SetsForwarder column_map takes_all enable (some nothing_set)
      (row_of column_map nothing_set) config column_map-IsSmap takes_all-IsAtomic (omega arith)
      forwarding_runs

-- "option 82 validate" is refused under the policy "keep".
abbrev keeping : Column
keeping = column_map.replace nothing_set v4relay_option82_policy keep_text

validate_refused :
    execute column_map takes_all (option82 validate_text) (some keeping)
    ≡ some (told keep_and_validate (some keeping))
unfolding execute dhcp_relay_options_configuration
validate_refused = refl
