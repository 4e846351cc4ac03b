-- ===== src/Cli/Show.antt =====
-- show_dhcp_relay_config of relay/udpfwd/src/cli/dhcp_relay_vty.c, and that what it shows is what the
-- daemon does.
use ops_ipapps.Base.{
  ◌≡◌, ◌≢◌, refl, ◌∙◌, sym, ap, true, false, Option, none, some, if◌then◌else◌, Text,
}
use ops_ipapps.Feature.{
  FeatureStatus, dhcp_relay, dhcp_relay_hop_count_increment, dhcp_relay_option82,
  dhcp_relay_option82_validate, disable, enable,
}
use ops_ipapps.Feature.Laws.{IsBitmap}
use ops_ipapps.Global.{
  GlobalConfig, SystemRow, keep, drop, replace, invalid, remote_id_ip, remote_id_mac,
  remote_id_invalid, true_text, replace_text, drop_text, ip_text, spells, unless_true, when_true,
  process_globalconfig_update,
}
use ops_ipapps.Global.Columns.{bitmap, status}
use ops_ipapps.Global.Laws.{process_globalconfig_update-Follows}
use ops_ipapps.Relay.{same_text}
use ops_ipapps.Cli.{
  CmdResult, cmd_success, cmd_ovsdb_failure, v4relay_disabled, v4relay_hop_count_increment_disabled,
  v4relay_option82_enabled, v4relay_option82_validation_enabled, v4relay_option82_policy,
  v4relay_option82_remote_id, Smap,
}
use ops_ipapps.Cli.RelayConfig.{policy_text, remote_id_text, mac_text}
use ops_ipapps.Cli.Columns.{IsSwitch, set, IsPolicy, IsRemoteId, IsConfig}

-- The lines of "show dhcp-relay" before the statistics: "enabled" or "disabled", and two texts.
pub record Shown : Type 0 where
  pub relay : FeatureStatus
  pub hop_count : FeatureStatus
  pub option82 : FeatureStatus
  pub validation : FeatureStatus
  pub policy : Text
  pub remote_id : Text

-- The lines say what the configuration is.
pub record Agrees (g : GlobalConfig) (s : Shown) : Type 0 where
  pub relay : s.relay ≡ status g dhcp_relay
  pub hop_count : s.hop_count ≡ status g dhcp_relay_hop_count_increment
  pub option82 : s.option82 ≡ status g dhcp_relay_option82
  pub validation : s.validation ≡ status g dhcp_relay_option82_validate
  pub policy : some s.policy ≡ policy_text g.feature_config.policy
  pub remote_id : some s.remote_id ≡ remote_id_text g.feature_config.r_id

-- status && !strcmp(status, "true"), for a key that says a feature is off and one that says it is on.
abbrev shown_off : Option Text → FeatureStatus
shown_off none = enable
shown_off (some value) = if same_text value true_text then disable else enable

abbrev shown_on : Option Text → FeatureStatus
shown_on none = disable
shown_on (some value) = if same_text value true_text then enable else disable

abbrev or_default : Option Text → Text → Text
or_default none default = default
or_default (some value) default = value

module _ {M : Type 0} (smap : Smap M) where
  abbrev shown : M → Shown
  shown column = record {
    relay = shown_off (smap.get column v4relay_disabled);
    hop_count = shown_off (smap.get column v4relay_hop_count_increment_disabled);
    option82 = shown_on (smap.get column v4relay_option82_enabled);
    validation = shown_on (smap.get column v4relay_option82_validation_enabled);
    policy = or_default (smap.get column v4relay_option82_policy) replace_text;
    remote_id = or_default (smap.get column v4relay_option82_remote_id) mac_text;
  }

  -- The result and the lines, none without a System row.
  unfoldable pub show_dhcp_relay_config : Option M → CmdResult × Option Shown
  show_dhcp_relay_config none = (cmd_ovsdb_failure, none)
  show_dhcp_relay_config (some column) = (cmd_success, some (shown column))

  -- The System row as the daemon sees it after a change of its dhcp_config column.
  abbrev pub row_of : M → SystemRow
  row_of column = record {
    row_modified = true;
    dhcp_config_modified = true;
    other_config_modified = false;
    v4relay_disabled = smap.get column v4relay_disabled;
    v4relay_hop_count_increment_disabled = smap.get column v4relay_hop_count_increment_disabled;
    v4relay_option82_enabled = smap.get column v4relay_option82_enabled;
    v4relay_option82_validation_enabled = smap.get column v4relay_option82_validation_enabled;
    v4relay_option82_policy = smap.get column v4relay_option82_policy;
    v4relay_option82_remote_id = smap.get column v4relay_option82_remote_id;
    udp_bcast_fwd_enabled = none;
    stats_update_interval = none;
  }

shown_off-unless_true : (o : Option Text) → IsSwitch o → shown_off o ≡ unless_true o
shown_off-unless_true none h = refl
shown_off-unless_true _ (set enable) = refl
shown_off-unless_true _ (set disable) = refl

shown_on-when_true : (o : Option Text) → IsSwitch o → shown_on o ≡ when_true o
shown_on-when_true none h = refl
shown_on-when_true _ (set enable) = refl
shown_on-when_true _ (set disable) = refl

shown_policy :
    (o : Option Text)
    → IsPolicy o
    → o ≢ none
    → some (or_default o replace_text)
      ≡ policy_text
          (if spells o replace_text then replace else if spells o drop_text then drop else keep)
shown_policy o (keep, e) n = rw e refl
shown_policy o (drop, e) n = rw e refl
shown_policy o (replace, e) n = rw e refl
shown_policy o (invalid, e) n = absurd (n e)

shown_remote_id :
    (o : Option Text)
    → IsRemoteId o
    → some (or_default o mac_text)
      ≡ remote_id_text (if spells o ip_text then remote_id_ip else remote_id_mac)
shown_remote_id o (remote_id_ip, e) = rw e refl
shown_remote_id o (remote_id_mac, e) = rw e refl
shown_remote_id o (remote_id_invalid, e) = rw e refl

module _ {M : Type 0} (smap : Smap M) where
  -- "show dhcp-relay" shows what the daemon does: on a column that the commands can leave and that
  -- holds a policy, the switches, the policy and the remote id that are shown are those of the
  -- daemon's configuration after it has read the column.
  pub show_dhcp_relay_config-Agrees :
      (column : M) (g : GlobalConfig)
      → IsBitmap (bitmap g)
      → IsConfig smap column
      → smap.get column v4relay_option82_policy ≢ none
      → (s : Shown) × (show_dhcp_relay_config smap (some column) ≡ (cmd_success, some s))
        × Agrees (process_globalconfig_update (some (row_of smap column)) g) s
  unfolding show_dhcp_relay_config
  show_dhcp_relay_config-Agrees column g b h n =
      let f = process_globalconfig_update-Follows (row_of smap column) g b refl in
      (
        shown smap column,
        refl,
        record {
          relay = shown_off-unless_true _ h.relay ∙ sym f.relay;
          hop_count = shown_off-unless_true _ h.hop_count ∙ sym f.hop_count;
          option82 = shown_on-when_true _ h.option82 ∙ sym f.option82;
          validation = shown_on-when_true _ h.validate ∙ sym f.validate;
          policy = shown_policy _ h.policy n ∙ ap policy_text (sym f.policy);
          remote_id = shown_remote_id _ h.r_id ∙ ap remote_id_text (sym f.r_id);
        },
      )
