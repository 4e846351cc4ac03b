-- ===== src/Cli/RelayConfig.antt =====
-- dhcp_relay_config of relay/udpfwd/src/cli/dhcp_relay_vty.c: a change of the System row's
-- dhcp_config column.
use ops_ipapps.Base.{ℕ, Bool, true, false, not, Option, none, some, [], ◌∷◌, if◌then◌else◌, Text}
use ops_ipapps.Base.Run.{StateRun, pure, ◌>>◌}
use ops_ipapps.Feature.{
  Feature, FeatureStatus, dhcp_relay, dhcp_relay_hop_count_increment, dhcp_relay_option82,
  dhcp_relay_option82_validate, udp_bcast_forwarder, invalid_feature, disable, enable, is_enabled,
  get_feature_status,
}
use ops_ipapps.Global.{
  Option82Policy, Option82RemoteId, FeatureConfig, keep, drop, replace, invalid, remote_id_ip,
  remote_id_mac, remote_id_invalid, true_text, replace_text, drop_text, ip_text,
}
use ops_ipapps.Cli.{
  Answer, Ovsdb, Key, v4relay_disabled, v4relay_hop_count_increment_disabled,
  v4relay_option82_enabled, v4relay_option82_validation_enabled, v4relay_option82_policy,
  v4relay_option82_remote_id, Smap, failed, finish_txn,
}

abbrev pub false_text : Text
false_text = b'f' ∷ b'a' ∷ b'l' ∷ b's' ∷ b'e' ∷ []

abbrev pub keep_text : Text
keep_text = b'k' ∷ b'e' ∷ b'e' ∷ b'p' ∷ []

abbrev pub mac_text : Text
mac_text = b'm' ∷ b'a' ∷ b'c' ∷ []

-- policy_name[policy] and remote_id_name[rid] where the two functions below read them.
abbrev pub policy_text : Option82Policy → Option Text
policy_text keep = some keep_text
policy_text drop = some drop_text
policy_text replace = some replace_text
policy_text invalid = none

abbrev pub remote_id_text : Option82RemoteId → Option Text
remote_id_text remote_id_ip = some ip_text
remote_id_text remote_id_mac = some mac_text
remote_id_text remote_id_invalid = none

abbrev feature_key : Feature → Option Key
feature_key dhcp_relay = some v4relay_disabled
feature_key dhcp_relay_hop_count_increment = some v4relay_hop_count_increment_disabled
feature_key dhcp_relay_option82 = some v4relay_option82_enabled
feature_key dhcp_relay_option82_validate = some v4relay_option82_validation_enabled
feature_key udp_bcast_forwarder = none
feature_key invalid_feature = none

-- (ENABLE == status) ? "true" : "false"
abbrev pub status_text : FeatureStatus → Text
status_text enable = true_text
status_text disable = false_text

-- (state == ENABLE) ? DISABLE : ENABLE
abbrev pub opposite : FeatureStatus → FeatureStatus
opposite enable = disable
opposite disable = enable

-- config_value->policy < INVALID, config_value->r_id < REMOTE_ID_INVALID
abbrev pub policy_given : Option82Policy → Bool
policy_given invalid = false
policy_given _ = true

abbrev pub r_id_given : Option82RemoteId → Bool
r_id_given remote_id_invalid = false
r_id_given _ = true

abbrev pub marked : ℕ → Feature → Bool
marked update_config feature = is_enabled (get_feature_status update_config feature)

module _ {M : Type 0} (smap : Smap M) where
  -- smap_replace with a key and a value that may be NULL, which it follows.
  abbrev pub replace_in : Option Key → Option Text → StateRun M Unit
  replace_in none value m = none
  replace_in (some key) none m = none
  replace_in (some key) (some value) m = some (tt, smap.replace m key value)

  abbrev pub when : Bool → StateRun M Unit → StateRun M Unit
  when true change = change
  when false change = pure tt

  unfoldable pub update_feature_key : FeatureStatus → Feature → StateRun M Unit
  update_feature_key status feature = replace_in (feature_key feature) (some (status_text status))

  unfoldable pub update_option_82_policy : Option82Policy → StateRun M Unit
  update_option_82_policy policy = replace_in (some v4relay_option82_policy) (policy_text policy)

  unfoldable pub update_option_82_remote_id : Option82RemoteId → StateRun M Unit
  update_option_82_remote_id rid = replace_in (some v4relay_option82_remote_id) (remote_id_text rid)

  -- The clone of the column as dhcp_relay_config changes it.
  unfoldable pub update_column : ℕ → FeatureConfig → StateRun M Unit
  update_column update_config value =
      let state = get_feature_status value.config in
      do
        when (marked update_config dhcp_relay)
            (update_feature_key (opposite (state dhcp_relay)) dhcp_relay)
        when (marked update_config dhcp_relay_hop_count_increment) (
            update_feature_key (opposite (state dhcp_relay_hop_count_increment))
              dhcp_relay_hop_count_increment)
        when (marked update_config dhcp_relay_option82)
            (update_feature_key (state dhcp_relay_option82) dhcp_relay_option82)
        when (marked update_config dhcp_relay_option82_validate)
            (update_feature_key (state dhcp_relay_option82_validate) dhcp_relay_option82_validate)
        when (policy_given value.policy) (update_option_82_policy value.policy)
        when (r_id_given value.r_id) (update_option_82_remote_id value.r_id)

  abbrev commit_column : Ovsdb (Option M) → M → Option {0} (Unit × M) → Option (Answer (Option M))
  commit_column o old none = none
  commit_column o old (some (_, new)) = some (finish_txn o (some old) (some new))

  abbrev config_row : Ovsdb (Option M) → ℕ → FeatureConfig → Option M → Option (Answer (Option M))
  config_row o update_config value none = some (failed none)
  config_row o update_config value (some column) =
      commit_column o column (update_column update_config value column)

  -- The database is the System row's column, `none` without a row; the result is `none` where the
  -- code passes a NULL pointer to smap_replace.
  unfoldable pub dhcp_relay_config :
      Ovsdb (Option M) → ℕ → FeatureConfig → Option M → Option (Answer (Option M))
  dhcp_relay_config o update_config value row =
      if not o.started then some (failed row) else config_row o update_config value row
