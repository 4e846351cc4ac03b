-- ===== src/Global.antt =====
-- The global configuration of the relay daemon, relay/udpfwd/src/udpfwd.c: its defaults, and what a
-- change of the System row in the database does to it.
pub mod Tests
pub mod Columns
pub mod Laws
use ops_ipapps.Base.{
  ℕ, ◌+◌, ◌-◌, ◌*◌, Bool, ◌&&◌, ◌||◌, Option, none, some, [], ◌∷◌, ℤ, pos, neg, int_eq, ltb, leb,
  ◌==◌, if◌then◌else◌, length, Text, strncmp_eq,
}
use ops_ipapps.Feature.{
  Feature, FeatureStatus, udp_bcast_forwarder, dhcp_relay, dhcp_relay_hop_count_increment,
  dhcp_relay_option82, dhcp_relay_option82_validate, disable, enable, get_feature_status,
  set_feature_status,
}
use ops_ipapps.Feature.Laws.{status_eq}

pub data Option82Policy : Type 0 where
  keep drop replace invalid : Option82Policy

pub data Option82RemoteId : Type 0 where
  remote_id_ip remote_id_mac remote_id_invalid : Option82RemoteId

pub record FeatureConfig : Type 0 where
  pub config : ℕ
  pub policy : Option82Policy
  pub r_id : Option82RemoteId

-- The part of the control block that the System row decides.
pub record GlobalConfig : Type 0 where
  pub feature_config : FeatureConfig
  pub stats_interval : ℤ

-- What the daemon reads of the System row: which columns changed, and the value that smap_get
-- returns for each key.
pub record SystemRow : Type 0 where
  pub row_modified : Bool
  pub dhcp_config_modified : Bool
  pub other_config_modified : Bool
  pub v4relay_disabled : Option Text
  pub v4relay_hop_count_increment_disabled : Option Text
  pub v4relay_option82_enabled : Option Text
  pub v4relay_option82_validation_enabled : Option Text
  pub v4relay_option82_policy : Option Text
  pub v4relay_option82_remote_id : Option Text
  pub udp_bcast_fwd_enabled : Option Text
  pub stats_update_interval : Option Text

abbrev pub true_text : Text
true_text = b't' ∷ b'r' ∷ b'u' ∷ b'e' ∷ []

abbrev pub replace_text : Text
replace_text = b'r' ∷ b'e' ∷ b'p' ∷ b'l' ∷ b'a' ∷ b'c' ∷ b'e' ∷ []

abbrev pub drop_text : Text
drop_text = b'd' ∷ b'r' ∷ b'o' ∷ b'p' ∷ []

abbrev pub ip_text : Text
ip_text = b'i' ∷ b'p' ∷ []

-- value && !strncmp(value, word, strlen(value))
abbrev pub spells : Option Text → Text → Bool
spells none word = Bool.false
spells (some value) word = strncmp_eq value word (length value)

atoi_digits : ℕ → Text → ℕ
atoi_digits acc [] = acc
atoi_digits acc (c ∷ cs) =
    let more = atoi_digits (acc * 10 + (c - b'0')) cs in
    if leb b'0' c && leb c b'9' then more else acc

atoi_sign : Text → ℤ
unfolding atoi_digits
atoi_sign [] = pos 0
atoi_sign (c ∷ cs) =
    if c == b'-'
    then neg (atoi_digits 0 cs)
    else if c == b'+'
    then pos (atoi_digits 0 cs)
    else pos (atoi_digits 0 (c ∷ cs))

-- The C function, on values that fit an int: white space, a sign, digits.
pub atoi : Text → ℤ
unfolding atoi_sign
atoi [] = pos 0
atoi (c ∷ cs) =
    let rest = atoi cs in if c == 32 || (leb 9 c && leb c 13) then rest else atoi_sign (c ∷ cs)

-- memset(…, 0, …), then the defaults.
abbrev pub zero_config : GlobalConfig
zero_config = record {
  feature_config = record { config = 0; policy = keep; r_id = remote_id_ip };
  stats_interval = pos 0;
}

set_status : Feature → FeatureStatus → GlobalConfig → GlobalConfig
set_status f s g = record g {
  feature_config = record (g.feature_config) {
    config = set_feature_status g.feature_config.config f s;
  };
}

pub set_default_config : GlobalConfig → GlobalConfig
unfolding set_status
set_default_config g =
    let a = set_status udp_bcast_forwarder disable g in
    let b = set_status dhcp_relay enable a in
    let c = set_status dhcp_relay_hop_count_increment enable b in
    let d = set_status dhcp_relay_option82 disable c in
    let e = set_status dhcp_relay_option82_validate disable d in
    record e {
      feature_config = record (e.feature_config) { policy = replace; r_id = remote_id_mac };
      stats_interval = pos 5000;
    }

pub update_feature_state : Feature → FeatureStatus → GlobalConfig → GlobalConfig
unfolding set_status
update_feature_state f state g =
    if status_eq state (get_feature_status g.feature_config.config f)
    then g
    else set_status f state g

-- The policy that the value asks for.
wanted_policy : Option Text → Option82Policy
wanted_policy value =
    if spells value replace_text then replace else if spells value drop_text then drop else keep

abbrev policy_eq : Option82Policy → Option82Policy → Bool
policy_eq keep keep = Bool.true
policy_eq drop drop = Bool.true
policy_eq replace replace = Bool.true
policy_eq invalid invalid = Bool.true
policy_eq _ _ = Bool.false

abbrev remote_id_eq : Option82RemoteId → Option82RemoteId → Bool
remote_id_eq remote_id_ip remote_id_ip = Bool.true
remote_id_eq remote_id_mac remote_id_mac = Bool.true
remote_id_eq remote_id_invalid remote_id_invalid = Bool.true
remote_id_eq _ _ = Bool.false

pub update_option82_policy : Option Text → GlobalConfig → GlobalConfig
unfolding wanted_policy
update_option82_policy value g =
    if policy_eq (wanted_policy value) g.feature_config.policy
    then g
    else record g { feature_config = record (g.feature_config) { policy = wanted_policy value } }

wanted_remote_id : Option Text → Option82RemoteId
wanted_remote_id value = if spells value ip_text then remote_id_ip else remote_id_mac

pub update_option82_remote_id : Option Text → GlobalConfig → GlobalConfig
unfolding wanted_remote_id
update_option82_remote_id value g =
    if remote_id_eq (wanted_remote_id value) g.feature_config.r_id
    then g
    else record g { feature_config = record (g.feature_config) { r_id = wanted_remote_id value } }

pub update_stats_refresh_interval : Option Text → GlobalConfig → GlobalConfig
unfolding atoi
update_stats_refresh_interval none g = g
update_stats_refresh_interval (some value) g =
    if int_eq (atoi value) g.stats_interval then g else record g { stats_interval = atoi value }

-- A feature that is on unless the value spells "true", and one that is off unless it does.
abbrev pub unless_true : Option Text → FeatureStatus
unless_true value = if spells value true_text then disable else enable

abbrev pub when_true : Option Text → FeatureStatus
when_true value = if spells value true_text then enable else disable

pub update_dhcp_config : SystemRow → GlobalConfig → GlobalConfig
update_dhcp_config row g =
    let a = update_feature_state dhcp_relay (unless_true row.v4relay_disabled) g in
    let b =
      update_feature_state dhcp_relay_hop_count_increment
        (unless_true row.v4relay_hop_count_increment_disabled) a in
    let c = update_feature_state dhcp_relay_option82 (when_true row.v4relay_option82_enabled) b in
    let d =
      update_feature_state dhcp_relay_option82_validate
        (when_true row.v4relay_option82_validation_enabled) c in
    update_option82_remote_id row.v4relay_option82_remote_id
      (update_option82_policy row.v4relay_option82_policy d)

update_other_config : SystemRow → GlobalConfig → GlobalConfig
update_other_config row g =
    update_stats_refresh_interval row.stats_update_interval
      (update_feature_state udp_bcast_forwarder (when_true row.udp_bcast_fwd_enabled) g)

-- `none`: the database has no System row.
pub process_globalconfig_update : Option SystemRow → GlobalConfig → GlobalConfig
unfolding update_dhcp_config update_other_config
process_globalconfig_update none g = g
process_globalconfig_update (some row) g =
    if row.row_modified
    then (let g' = if row.dhcp_config_modified then update_dhcp_config row g else g in
        if row.other_config_modified then update_other_config row g' else g')
    else g
