-- ===== src/Global/Tests.antt =====
-- A change of the System row on concrete values.
use ops_ipapps.Base.{refl, true, false, none, some, [], ◌∷◌, pos, arith}
use ops_ipapps.Global.{
  GlobalConfig, SystemRow, replace, remote_id_mac, true_text, drop_text, ip_text,
  process_globalconfig_update,
}
use ops_ipapps.Global.Laws.{Follows, process_globalconfig_update-Follows}

abbrev row : SystemRow
row = record {
  row_modified = true;
  dhcp_config_modified = true;
  other_config_modified = false;
  v4relay_disabled = none;
  v4relay_hop_count_increment_disabled = some true_text;
  v4relay_option82_enabled = some true_text;
  v4relay_option82_validation_enabled = none;
  v4relay_option82_policy = some drop_text;
  v4relay_option82_remote_id = some ip_text;
  udp_bcast_fwd_enabled = some true_text;
  stats_update_interval = some (b'9' ∷ []);
}

abbrev config : GlobalConfig
config = record {
  feature_config = record { config = 6; policy = replace; r_id = remote_id_mac };
  stats_interval = pos 5000;
}

process_globalconfig_update-Follows_example :
    Follows true false row config (process_globalconfig_update (some row) config)
process_globalconfig_update-Follows_example =
    process_globalconfig_update-Follows row config (omega arith) refl
