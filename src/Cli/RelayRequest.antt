-- ===== src/Cli/RelayRequest.antt =====
-- What each DHCP relay command of relay/udpfwd/src/cli/dhcp_relay_vty.c hands to dhcp_relay_config:
-- its local variables update_features and config_value. An argument is argv[0], `none` for NULL.
use ops_ipapps.Base.{ℕ, Option, none, some, [], ◌∷◌, if◌then◌else◌, Text}
use ops_ipapps.Feature.{
  Feature, FeatureStatus, dhcp_relay, dhcp_relay_hop_count_increment, dhcp_relay_option82,
  dhcp_relay_option82_validate, disable, enable, set_feature_status,
}
use ops_ipapps.Global.{
  Option82Policy, Option82RemoteId, FeatureConfig, keep, drop, replace, invalid, remote_id_ip,
  remote_id_mac, remote_id_invalid, replace_text, ip_text,
}
use ops_ipapps.Relay.{same_text}
use ops_ipapps.Cli.RelayConfig.{keep_text}

pub record Request : Type 0 where
  pub update_features : ℕ
  pub config_value : FeatureConfig

-- memset(&config_value, 0, …)
abbrev blank : Request
blank = record {
  update_features = 0;
  config_value = record { config = 0; policy = keep; r_id = remote_id_ip };
}

infixl 5 ◌▸◌
abbrev ◌▸◌ : Request → (Request → Request) → Request
r ▸ f = f r

-- set_feature_status(&update_features, feature, ENABLE)
abbrev mark : Feature → Request → Request
mark feature r = record r { update_features = set_feature_status r.update_features feature enable }

-- set_feature_status(&config_value.config, feature, status)
abbrev put : Feature → FeatureStatus → Request → Request
put feature status r = record r {
  config_value = record (r.config_value) {
    config = set_feature_status r.config_value.config feature status;
  };
}

abbrev policy_is : Option82Policy → Request → Request
policy_is p r = record r { config_value = record (r.config_value) { policy = p } }

abbrev r_id_is : Option82RemoteId → Request → Request
r_id_is i r = record r { config_value = record (r.config_value) { r_id = i } }

abbrev pub validate_text : Text
validate_text = b'v' ∷ b'a' ∷ b'l' ∷ b'i' ∷ b'd' ∷ b'a' ∷ b't' ∷ b'e' ∷ []

-- !strcmp(argv[0], remote_id_name[REMOTE_ID_IP]) ? REMOTE_ID_IP : REMOTE_ID_MAC
abbrev pub r_id_of : Text → Option82RemoteId
r_id_of word = if same_text word ip_text then remote_id_ip else remote_id_mac

-- The remote id that an argument names, REMOTE_ID_INVALID without one.
abbrev r_id_named : Option Text → Option82RemoteId
r_id_named none = remote_id_invalid
r_id_named (some word) = r_id_of word

unfoldable pub dhcp_relay_configuration : Option Text → Request
dhcp_relay_configuration none =
    blank ▸ policy_is invalid ▸ r_id_is remote_id_invalid ▸ mark dhcp_relay ▸ put dhcp_relay enable
dhcp_relay_configuration (some _) =
    blank
    ▸ policy_is invalid
    ▸ r_id_is remote_id_invalid
    ▸ mark dhcp_relay_hop_count_increment
    ▸ put dhcp_relay_hop_count_increment enable

-- The relay and option 82 are marked and enabled.
abbrev relay_and_option82 : Request → Request
relay_and_option82 r =
    r
    ▸ mark dhcp_relay
    ▸ mark dhcp_relay_option82
    ▸ put dhcp_relay enable
    ▸ put dhcp_relay_option82 enable

-- The same with validation, marked and set to a status.
abbrev relay_option82_validate : FeatureStatus → Request → Request
relay_option82_validate status r =
    r
    ▸ mark dhcp_relay
    ▸ mark dhcp_relay_option82
    ▸ mark dhcp_relay_option82_validate
    ▸ put dhcp_relay enable
    ▸ put dhcp_relay_option82 enable
    ▸ put dhcp_relay_option82_validate status

-- "option 82 validate", past the test of the policy in the database.
unfoldable pub options_validate : Request
options_validate =
    blank
    ▸ r_id_is remote_id_invalid
    ▸ relay_and_option82
    ▸ mark dhcp_relay_option82_validate
    ▸ put dhcp_relay_option82_validate enable
    ▸ policy_is invalid

-- "option 82 (keep|drop|replace)"
unfoldable pub options_policy : Text → Request
options_policy word =
    let start = blank ▸ r_id_is remote_id_invalid ▸ relay_and_option82 in
    if same_text word keep_text
    then (start
        ▸ mark dhcp_relay_option82_validate
        ▸ put dhcp_relay_option82_validate disable
        ▸ policy_is keep)
    else if same_text word replace_text
    then start ▸ policy_is replace
    else start ▸ policy_is drop

unfoldable pub dhcp_relay_keep_option_configuration : Option Text → Request
dhcp_relay_keep_option_configuration arg =
    blank ▸ relay_option82_validate disable ▸ policy_is keep ▸ r_id_is (r_id_named arg)

-- if (argv[0]) in the commands that take (validate|mac|ip)
abbrev validate_or_r_id : Option Text → Request → Request
validate_or_r_id none r = r
validate_or_r_id (some word) r =
    if same_text word validate_text
    then (r
        ▸ mark dhcp_relay_option82_validate
        ▸ put dhcp_relay_option82_validate enable
        ▸ r_id_is remote_id_invalid)
    else r ▸ r_id_is (r_id_of word)

-- The relay itself is not marked here, and its status is set twice.
unfoldable pub dhcp_relay_drop_option_configuration : Option Text → Request
dhcp_relay_drop_option_configuration arg =
    blank
    ▸ mark dhcp_relay_option82
    ▸ put dhcp_relay enable
    ▸ put dhcp_relay enable
    ▸ put dhcp_relay_option82 enable
    ▸ policy_is drop
    ▸ validate_or_r_id arg

unfoldable pub dhcp_relay_drop_validate_option_configuration : Option Text → Request
dhcp_relay_drop_validate_option_configuration arg =
    blank ▸ relay_option82_validate enable ▸ policy_is drop ▸ r_id_is (r_id_named arg)

-- if (argv[0]) in the commands that take (validate)
abbrev validate_if : Option Text → Request → Request
validate_if none r = r
validate_if (some _) r =
    r ▸ mark dhcp_relay_option82_validate ▸ put dhcp_relay_option82_validate enable

unfoldable pub dhcp_relay_drop_remote_id_mac_option_configuration : Option Text → Request
dhcp_relay_drop_remote_id_mac_option_configuration arg =
    blank ▸ relay_and_option82 ▸ policy_is drop ▸ r_id_is remote_id_mac ▸ validate_if arg

unfoldable pub dhcp_relay_drop_remote_id_ip_option_configuration : Option Text → Request
dhcp_relay_drop_remote_id_ip_option_configuration arg =
    blank ▸ relay_and_option82 ▸ policy_is drop ▸ r_id_is remote_id_ip ▸ validate_if arg

unfoldable pub dhcp_relay_replace_option_configuration : Option Text → Request
dhcp_relay_replace_option_configuration arg =
    blank ▸ relay_and_option82 ▸ policy_is replace ▸ validate_or_r_id arg

unfoldable pub dhcp_relay_replace_validate_option_configuration : Option Text → Request
dhcp_relay_replace_validate_option_configuration arg =
    blank ▸ relay_option82_validate enable ▸ policy_is replace ▸ r_id_is (r_id_named arg)

unfoldable pub dhcp_relay_replace_remote_id_mac_option_configuration : Option Text → Request
dhcp_relay_replace_remote_id_mac_option_configuration arg =
    blank ▸ relay_and_option82 ▸ policy_is replace ▸ r_id_is remote_id_mac ▸ validate_if arg

unfoldable pub dhcp_relay_replace_remote_id_ip_option_configuration : Option Text → Request
dhcp_relay_replace_remote_id_ip_option_configuration arg =
    blank ▸ relay_and_option82 ▸ policy_is replace ▸ r_id_is remote_id_ip ▸ validate_if arg

-- if (argv[0]) of "validate (drop|replace)": without it the policy stays as memset left it.
abbrev policy_named : Option Text → Request → Request
policy_named none r = r
policy_named (some word) r =
    if same_text word replace_text then r ▸ policy_is replace else r ▸ policy_is drop

unfoldable pub dhcp_relay_validate_policy_option_configuration : Option Text → Request
dhcp_relay_validate_policy_option_configuration arg =
    blank ▸ r_id_is remote_id_invalid ▸ relay_option82_validate enable ▸ policy_named arg

unfoldable pub dhcp_relay_validate_drop_option_configuration : Option Text → Request
dhcp_relay_validate_drop_option_configuration arg =
    blank ▸ relay_option82_validate enable ▸ policy_is drop ▸ r_id_is (r_id_named arg)

-- The policy is DROP here too.
unfoldable pub dhcp_relay_validate_replace_option_configuration : Option Text → Request
dhcp_relay_validate_replace_option_configuration arg =
    blank ▸ relay_option82_validate enable ▸ policy_is drop ▸ r_id_is (r_id_named arg)

unfoldable pub no_dhcp_relay_option_configuration : Option Text → Request
no_dhcp_relay_option_configuration none =
    blank
    ▸ mark dhcp_relay_option82
    ▸ mark dhcp_relay_option82_validate
    ▸ put dhcp_relay_option82 disable
    ▸ put dhcp_relay_option82_validate disable
    ▸ r_id_is remote_id_mac
    ▸ policy_is replace
no_dhcp_relay_option_configuration (some _) =
    blank
    ▸ mark dhcp_relay_option82_validate
    ▸ put dhcp_relay_option82_validate disable
    ▸ r_id_is remote_id_invalid
    ▸ policy_is invalid

unfoldable pub no_dhcp_relay_configuration : Option Text → Request
no_dhcp_relay_configuration none =
    blank
    ▸ mark dhcp_relay
    ▸ mark dhcp_relay_option82
    ▸ mark dhcp_relay_option82_validate
    ▸ put dhcp_relay disable
    ▸ put dhcp_relay_option82 disable
    ▸ put dhcp_relay_option82_validate disable
    ▸ r_id_is remote_id_mac
    ▸ policy_is replace
no_dhcp_relay_configuration (some _) =
    blank
    ▸ mark dhcp_relay_hop_count_increment
    ▸ put dhcp_relay_hop_count_increment disable
    ▸ r_id_is remote_id_invalid
    ▸ policy_is invalid
