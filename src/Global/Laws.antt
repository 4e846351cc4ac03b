-- ===== src/Global/Laws.antt =====
-- After a change of the System row the configuration is what the row says.
use ops_ipapps.Base.{◌≡◌, refl, Bool, true, false, some, if◌then◌else◌, arith, ◌∙◌, ap}
use ops_ipapps.Feature.{
  udp_bcast_forwarder, dhcp_relay, dhcp_relay_hop_count_increment, dhcp_relay_option82,
  dhcp_relay_option82_validate,
}
use ops_ipapps.Feature.Laws.{IsBitmap}
use ops_ipapps.Global.{
  keep, drop, replace, remote_id_ip, remote_id_mac, GlobalConfig, SystemRow, spells, replace_text,
  drop_text, ip_text, update_feature_state, unless_true, when_true, update_dhcp_config,
  update_other_config, process_globalconfig_update,
}
use ops_ipapps.Global.Columns.{
  bitmap, status, Writes, update_feature_state-Writes, update_dhcp_config-Follows, wanted_interval,
  update_stats_refresh_interval_lem,
}

-- The configuration `g'` after the row was read in `g`: each part is as the row says if its column
-- (`dhcp_config`, `other_config`) was modified, and as before if not.
pub record Follows (dhcp other : Bool) (row : SystemRow) (g g' : GlobalConfig) : Type 0 where
  pub relay :
      status g' dhcp_relay
      ≡ (if dhcp then unless_true row.v4relay_disabled else status g dhcp_relay)
  pub hop_count : status g' dhcp_relay_hop_count_increment ≡ (
      if dhcp
      then unless_true row.v4relay_hop_count_increment_disabled
      else status g dhcp_relay_hop_count_increment)
  pub option82 :
      status g' dhcp_relay_option82
      ≡ (if dhcp then when_true row.v4relay_option82_enabled else status g dhcp_relay_option82)
  pub validate : status g' dhcp_relay_option82_validate ≡ (
      if dhcp
      then when_true row.v4relay_option82_validation_enabled
      else status g dhcp_relay_option82_validate)
  pub policy : g'.feature_config.policy ≡ (
      if dhcp
      then (if spells row.v4relay_option82_policy replace_text
          then replace
          else if spells row.v4relay_option82_policy drop_text
          then drop
          else keep)
      else g.feature_config.policy)
  pub r_id : g'.feature_config.r_id ≡ (
      if dhcp
      then (if spells row.v4relay_option82_remote_id ip_text then remote_id_ip else remote_id_mac)
      else g.feature_config.r_id)
  pub udp :
      status g' udp_bcast_forwarder
      ≡ (if other then when_true row.udp_bcast_fwd_enabled else status g udp_bcast_forwarder)
  pub interval : g'.stats_interval ≡ (
      if other
      then wanted_interval row.stats_update_interval g.stats_interval
      else g.stats_interval)
  pub bounded : IsBitmap (bitmap g')

dhcp_part-Follows :
    (dhcp : Bool) (row : SystemRow) (g : GlobalConfig)
    → IsBitmap (bitmap g)
    → Follows dhcp false row g (if dhcp then update_dhcp_config row g else g)
dhcp_part-Follows true row g v =
    let f = update_dhcp_config-Follows row g v in
    record {
      relay = f.relay;
      hop_count = f.hop_count;
      option82 = f.option82;
      validate = f.validate;
      policy = f.policy;
      r_id = f.r_id;
      udp = f.same_udp;
      interval = f.same_interval;
      bounded = f.bounded;
    }
dhcp_part-Follows false row g v = record {
  relay = refl;
  hop_count = refl;
  option82 = refl;
  validate = refl;
  policy = refl;
  r_id = refl;
  udp = refl;
  interval = refl;
  bounded = v;
}

-- The second half of the update writes one feature and the interval.
update_other_config-Writes :
    (row : SystemRow) (g : GlobalConfig)
    → IsBitmap (bitmap g)
    → (g' : GlobalConfig) × Writes udp_bcast_forwarder (when_true row.udp_bcast_fwd_enabled) g g'
      × (update_other_config row g ≡ record g' {
        stats_interval = wanted_interval row.stats_update_interval g.stats_interval;
      })
unfolding update_other_config
update_other_config-Writes row g v =
    let w =
      update_feature_state-Writes udp_bcast_forwarder (when_true row.udp_bcast_fwd_enabled) g v
        (λ e. cc) in
    (
      update_feature_state udp_bcast_forwarder (when_true row.udp_bcast_fwd_enabled) g,
      w,
      rw update_stats_refresh_interval_lem (ground (arith, w.same_interval)),
    )

other_part-Follows :
    (dhcp other : Bool) (row : SystemRow) (g h : GlobalConfig)
    → Follows dhcp false row g h
    → Follows dhcp other row g (if other then update_other_config row h else h)
other_part-Follows dhcp false row g h f = f
other_part-Follows dhcp true row g h f =
    let (h', w, eq) = update_other_config-Writes row h f.bounded in
    rw eq (record {
      relay = w.reads dhcp_relay ∙ f.relay;
      hop_count = w.reads dhcp_relay_hop_count_increment ∙ f.hop_count;
      option82 = w.reads dhcp_relay_option82 ∙ f.option82;
      validate = w.reads dhcp_relay_option82_validate ∙ f.validate;
      policy = w.same_policy ∙ f.policy;
      r_id = w.same_r_id ∙ f.r_id;
      udp = w.reads udp_bcast_forwarder;
      interval = ap (wanted_interval row.stats_update_interval) f.interval;
      bounded = w.bounded;
    })

-- A modified System row is read into the configuration: every feature, the option 82 policy, the
-- remote id and the refresh interval are then what the row's modified columns spell (a text spells
-- a word when it is a prefix of it), and what an unmodified column holds stays as it was.
pub process_globalconfig_update-Follows :
    (row : SystemRow) (g : GlobalConfig)
    → IsBitmap (bitmap g)
    → row.row_modified ≡ true
    → Follows row.dhcp_config_modified row.other_config_modified row g
        (process_globalconfig_update (some row) g)
unfolding process_globalconfig_update
process_globalconfig_update-Follows row g v m =
    simp m (other_part-Follows _ _ row g _ (dhcp_part-Follows _ row g v))
