-- ===== src/Cli/Asked.antt =====
-- What a request asks of the dhcp_config column, and that dhcp_relay_config writes it.
use ops_ipapps.Base.{
  ℕ, ◌≡◌, refl, arith, Bool, true, false, Option, none, some, if◌then◌else◌, Text,
}
use ops_ipapps.Feature.{
  Feature, FeatureStatus, dhcp_relay, dhcp_relay_hop_count_increment, dhcp_relay_option82,
  dhcp_relay_option82_validate, get_feature_status,
}
use ops_ipapps.Global.{
  Option82Policy, Option82RemoteId, FeatureConfig, keep, drop, replace, invalid, remote_id_ip,
  remote_id_mac, remote_id_invalid,
}
use ops_ipapps.Cli.{
  Key, v4relay_disabled, v4relay_hop_count_increment_disabled, v4relay_option82_enabled,
  v4relay_option82_validation_enabled, v4relay_option82_policy, v4relay_option82_remote_id,
  udp_bcast_fwd_enabled, bootp_gateway, key_eq, Smap, IsSmap,
}
use ops_ipapps.Cli.RelayConfig.{
  policy_text, remote_id_text, status_text, opposite, marked, policy_given, r_id_given, when,
  replace_in, update_feature_key, update_option_82_policy, update_option_82_remote_id,
  update_column,
}

-- What the user wants: the new status of a feature, if it is to change, the new policy and remote id,
-- or INVALID.
pub record Wish : Type 0 where
  pub relay : Option FeatureStatus
  pub hop_count : Option FeatureStatus
  pub option82 : Option FeatureStatus
  pub validate : Option FeatureStatus
  pub policy : Option82Policy
  pub r_id : Option82RemoteId

-- The text of a key that says a feature is on, and of one that says it is off.
abbrev pub on_text : Option FeatureStatus → Option Text
on_text none = none
on_text (some status) = some (status_text status)

abbrev pub off_text : Option FeatureStatus → Option Text
off_text none = none
off_text (some status) = some (status_text (opposite status))

abbrev pub text_for : Wish → Key → Option Text
text_for w v4relay_disabled = off_text w.relay
text_for w v4relay_hop_count_increment_disabled = off_text w.hop_count
text_for w v4relay_option82_enabled = on_text w.option82
text_for w v4relay_option82_validation_enabled = on_text w.validate
text_for w v4relay_option82_policy = policy_text w.policy
text_for w v4relay_option82_remote_id = remote_id_text w.r_id
text_for w udp_bcast_fwd_enabled = none
text_for w bootp_gateway = none

abbrev pub or_else : Option Text → Option Text → Option Text
or_else none old = old
or_else (some new) old = some new

abbrev asked_status : ℕ → ℕ → Feature → Option FeatureStatus
asked_status update config feature =
    if marked update feature then some (get_feature_status config feature) else none

abbrev pub asked : ℕ → FeatureConfig → Wish
asked update value = record {
  relay = asked_status update value.config dhcp_relay;
  hop_count = asked_status update value.config dhcp_relay_hop_count_increment;
  option82 = asked_status update value.config dhcp_relay_option82;
  validate = asked_status update value.config dhcp_relay_option82_validate;
  policy = value.policy;
  r_id = value.r_id;
}

module _ {M : Type 0} (smap : Smap M) where
  -- The column reads as wished where the wish says something, and as before elsewhere.
  abbrev pub Grants : Wish → M → M → Type 0
  Grants w old new = (k : Key) → smap.get new k ≡ or_else (text_for w k) (smap.get old k)

  abbrev put_in : Key → Option Text → M → M
  put_in k none m = m
  put_in k (some v) m = smap.replace m k v

  when_off :
      (k : Key) (b : Bool) (s : FeatureStatus) (m : M)
      → when smap b (replace_in smap (some k) (some (status_text (opposite s)))) m
        ≡ some (tt, put_in k (off_text (if b then some s else none)) m)
  when_off k true s m = refl
  when_off k false s m = refl

  when_on :
      (k : Key) (b : Bool) (s : FeatureStatus) (m : M)
      → when smap b (replace_in smap (some k) (some (status_text s))) m
        ≡ some (tt, put_in k (on_text (if b then some s else none)) m)
  when_on k true s m = refl
  when_on k false s m = refl

  when_policy :
      (p : Option82Policy) (m : M)
      → when smap (policy_given p) (update_option_82_policy smap p) m
        ≡ some (tt, put_in v4relay_option82_policy (policy_text p) m)
  unfolding update_option_82_policy
  when_policy keep m = refl
  when_policy drop m = refl
  when_policy replace m = refl
  when_policy invalid m = refl

  when_r_id :
      (i : Option82RemoteId) (m : M)
      → when smap (r_id_given i) (update_option_82_remote_id smap i) m
        ≡ some (tt, put_in v4relay_option82_remote_id (remote_id_text i) m)
  unfolding update_option_82_remote_id
  when_r_id remote_id_ip m = refl
  when_r_id remote_id_mac m = refl
  when_r_id remote_id_invalid m = refl

  -- The column with a wish written in it, in the order of the code.
  abbrev pub granted : Wish → M → M
  granted w m = put_in v4relay_option82_remote_id (remote_id_text w.r_id) (
      put_in v4relay_option82_policy (policy_text w.policy) (
        put_in v4relay_option82_validation_enabled (on_text w.validate) (
          put_in v4relay_option82_enabled (on_text w.option82) (
            put_in v4relay_hop_count_increment_disabled (off_text w.hop_count)
              (put_in v4relay_disabled (off_text w.relay) m)))))

  pub update_column-granted :
      (u : ℕ) (v : FeatureConfig) (m : M)
      → update_column smap u v m ≡ some (tt, granted (asked u v) m)
  unfolding update_column update_feature_key
  update_column-granted u v m =
      rw
        (
          when_off v4relay_disabled,
          when_off v4relay_hop_count_increment_disabled,
          when_on v4relay_option82_enabled,
          when_on v4relay_option82_validation_enabled,
          when_policy,
          when_r_id,
        )
        refl

  module _ (laws : IsSmap smap) where
    get-put_in :
        (k j : Key) (o : Option Text) (m : M)
        → smap.get (put_in k o m) j
          ≡ (if key_eq k j then or_else o (smap.get m j) else smap.get m j)
    get-put_in k j none m = ground arith
    get-put_in k j (some v) m = laws.get-replace m k j v

    pub granted-Grants : (w : Wish) (m : M) → Grants w m (granted w m)
    granted-Grants w m v4relay_disabled = simp get-put_in refl
    granted-Grants w m v4relay_hop_count_increment_disabled = simp get-put_in refl
    granted-Grants w m v4relay_option82_enabled = simp get-put_in refl
    granted-Grants w m v4relay_option82_validation_enabled = simp get-put_in refl
    granted-Grants w m v4relay_option82_policy = simp get-put_in refl
    granted-Grants w m v4relay_option82_remote_id = simp get-put_in refl
    granted-Grants w m udp_bcast_fwd_enabled = simp get-put_in refl
    granted-Grants w m bootp_gateway = simp get-put_in refl
