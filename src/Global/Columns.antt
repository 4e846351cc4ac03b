-- ===== src/Global/Columns.antt =====
-- What the parts of a change of the System row write: one feature, or one column of the row.
use ops_ipapps.Base.{
  ℕ, ◌≡◌, ◌≢◌, refl, true, Option, none, some, Text, if◌then◌else◌, arith, int_eq, ℤ, ◌∙◌,
}
use ops_ipapps.Feature.{
  Feature, FeatureStatus, udp_bcast_forwarder, dhcp_relay, dhcp_relay_hop_count_increment,
  dhcp_relay_option82, dhcp_relay_option82_validate, invalid_feature, get_feature_status,
}
use ops_ipapps.Feature.Laws.{feature_eq, IsBitmap, get-set_feature_status, status_eq→eq}
use ops_ipapps.Global.{
  atoi, Option82Policy, Option82RemoteId, keep, drop, replace, remote_id_ip, remote_id_mac,
  GlobalConfig, SystemRow, spells, replace_text, drop_text, ip_text, update_feature_state,
  wanted_policy, policy_eq, remote_id_eq, update_option82_policy, wanted_remote_id,
  update_option82_remote_id, update_stats_refresh_interval, unless_true, when_true,
  update_dhcp_config,
}

abbrev pub bitmap : GlobalConfig → ℕ
bitmap g = g.feature_config.config

abbrev pub status : GlobalConfig → Feature → FeatureStatus
status g f = get_feature_status (bitmap g) f

-- One feature is written, and nothing else.
pub record Writes (f : Feature) (s : FeatureStatus) (g g' : GlobalConfig) : Type 0 where
  pub reads : (h : Feature) → status g' h ≡ (if feature_eq f h then s else status g h)
  pub bounded : IsBitmap (bitmap g')
  pub same_policy : g'.feature_config.policy ≡ g.feature_config.policy
  pub same_r_id : g'.feature_config.r_id ≡ g.feature_config.r_id
  pub same_interval : g'.stats_interval ≡ g.stats_interval

pub feature_eq→eq :
    (f h : Feature) (g : GlobalConfig) → feature_eq f h ≡ true → status g f ≡ status g h
feature_eq→eq f h g e = ground arith

pub update_feature_state-Writes :
    (f : Feature) (s : FeatureStatus) (g : GlobalConfig)
    → IsBitmap (bitmap g)
    → f ≢ invalid_feature
    → Writes f s g (update_feature_state f s g)
unfolding update_feature_state
update_feature_state-Writes f s g b v = record {
  reads = λ h. ground (
    arith,
    get-set_feature_status (bitmap g) f h s b v,
    feature_eq→eq f h g,
    status_eq→eq s (status g f),
  );
  bounded = ground (arith, get-set_feature_status (bitmap g) f f s b v);
  same_policy = ground arith;
  same_r_id = ground arith;
  same_interval = ground arith;
}

pub policy_eq→eq : (p q : Option82Policy) → policy_eq p q ≡ true → q ≡ p
policy_eq→eq p q e = ground arith

pub remote_id_eq→eq : (p q : Option82RemoteId) → remote_id_eq p q ≡ true → q ≡ p
remote_id_eq→eq p q e = ground arith

update_option82_policy_lem :
    (value : Option Text) (g : GlobalConfig)
    → (update_option82_policy value g
        ≡ record g { feature_config = record (g.feature_config) { policy = wanted_policy value } })
unfolding update_option82_policy
update_option82_policy_lem value g =
    ground (arith, policy_eq→eq (wanted_policy value) g.feature_config.policy)

update_option82_remote_id_lem :
    (value : Option Text) (g : GlobalConfig)
    → (update_option82_remote_id value g
        ≡ record g { feature_config = record (g.feature_config) { r_id = wanted_remote_id value } })
unfolding update_option82_remote_id
update_option82_remote_id_lem value g =
    ground (arith, remote_id_eq→eq (wanted_remote_id value) g.feature_config.r_id)

-- What the DHCP columns of a row ask for.
pub record FollowsDhcp (row : SystemRow) (g g' : GlobalConfig) : Type 0 where
  pub relay : status g' dhcp_relay ≡ unless_true row.v4relay_disabled
  pub hop_count :
      status g' dhcp_relay_hop_count_increment
      ≡ unless_true row.v4relay_hop_count_increment_disabled
  pub option82 : status g' dhcp_relay_option82 ≡ when_true row.v4relay_option82_enabled
  pub validate :
      status g' dhcp_relay_option82_validate ≡ when_true row.v4relay_option82_validation_enabled
  pub same_udp : status g' udp_bcast_forwarder ≡ status g udp_bcast_forwarder
  pub policy : g'.feature_config.policy ≡ (
      if spells row.v4relay_option82_policy replace_text
      then replace
      else if spells row.v4relay_option82_policy drop_text
      then drop
      else keep)
  pub r_id :
      g'.feature_config.r_id
      ≡ (if spells row.v4relay_option82_remote_id ip_text then remote_id_ip else remote_id_mac)
  pub same_interval : g'.stats_interval ≡ g.stats_interval
  pub bounded : IsBitmap (bitmap g')

pub option82_valid : dhcp_relay_option82 ≢ invalid_feature
option82_valid e = cc

pub validate_valid : dhcp_relay_option82_validate ≢ invalid_feature
validate_valid e = cc

-- The four features in turn: what each reads at the end.
pub four_writes :
    (s₁ s₂ s₃ s₄ : FeatureStatus) (g : GlobalConfig)
    → IsBitmap (bitmap g)
    → let g' = update_feature_state dhcp_relay_option82_validate s₄ (
        update_feature_state dhcp_relay_option82 s₃ (
          update_feature_state dhcp_relay_hop_count_increment s₂
            (update_feature_state dhcp_relay s₁ g))) in
      (status g' dhcp_relay ≡ s₁)
      × (status g' dhcp_relay_hop_count_increment ≡ s₂)
      × (status g' dhcp_relay_option82 ≡ s₃)
      × (status g' dhcp_relay_option82_validate ≡ s₄)
      × (status g' udp_bcast_forwarder ≡ status g udp_bcast_forwarder)
      × (g'.stats_interval ≡ g.stats_interval)
      × IsBitmap (bitmap g')
four_writes s₁ s₂ s₃ s₄ g v =
    let w = update_feature_state-Writes in
    let a = w dhcp_relay s₁ g v (λ e. cc) in
    let b = w dhcp_relay_hop_count_increment s₂ _ a.bounded (λ e. cc) in
    let c = w dhcp_relay_option82 s₃ _ b.bounded option82_valid in
    let d = w dhcp_relay_option82_validate s₄ _ c.bounded validate_valid in
    (
      d.reads dhcp_relay ∙ c.reads dhcp_relay ∙ b.reads dhcp_relay ∙ a.reads dhcp_relay,
      d.reads dhcp_relay_hop_count_increment
          ∙ c.reads dhcp_relay_hop_count_increment
          ∙ b.reads dhcp_relay_hop_count_increment,
      d.reads dhcp_relay_option82 ∙ c.reads dhcp_relay_option82,
      d.reads dhcp_relay_option82_validate,
      d.reads udp_bcast_forwarder
          ∙ c.reads udp_bcast_forwarder
          ∙ b.reads udp_bcast_forwarder
          ∙ a.reads udp_bcast_forwarder,
      d.same_interval ∙ c.same_interval ∙ b.same_interval ∙ a.same_interval,
      d.bounded,
    )

pub update_dhcp_config-Follows :
    (row : SystemRow) (g : GlobalConfig)
    → IsBitmap (bitmap g)
    → FollowsDhcp row g (update_dhcp_config row g)
unfolding update_dhcp_config wanted_policy wanted_remote_id
update_dhcp_config-Follows row g v =
    let f =
      four_writes (unless_true row.v4relay_disabled)
        (unless_true row.v4relay_hop_count_increment_disabled)
        (when_true row.v4relay_option82_enabled) (when_true row.v4relay_option82_validation_enabled)
        g v in
    rw (update_option82_remote_id_lem, update_option82_policy_lem)
      (record {
        relay = f.0;
        hop_count = f.1;
        option82 = f.2;
        validate = f.3;
        same_udp = f.4;
        policy = ground arith;
        r_id = ground arith;
        same_interval = f.5;
        bounded = f.6;
      })

-- The refresh interval that the row's text spells, if it has one.
abbrev pub wanted_interval : Option Text → ℤ → ℤ
wanted_interval none old = old
wanted_interval (some value) old = atoi value

pub int_eq→eq : (a b : ℤ) → int_eq a b ≡ true → b ≡ a
int_eq→eq a b e = ground arith

pub update_stats_refresh_interval_lem :
    (value : Option Text) (g : GlobalConfig)
    → (update_stats_refresh_interval value g
        ≡ record g { stats_interval = wanted_interval value g.stats_interval })
unfolding update_stats_refresh_interval
update_stats_refresh_interval_lem none g = refl
update_stats_refresh_interval_lem (some value) g =
    ground (arith, int_eq→eq (atoi value) g.stats_interval)
