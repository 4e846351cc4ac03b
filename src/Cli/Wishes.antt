-- ===== src/Cli/Wishes.antt =====
-- The wish that each DHCP relay command states in its words, and which commands submit it.
use ops_ipapps.Base.{Bool, ◌≡◌, refl, true, false, none, some, if◌then◌else◌, Text, arith}
use ops_ipapps.Feature.{disable, enable, get_feature_status, set_feature_status}
use ops_ipapps.Global.{
  keep, drop, replace, invalid, remote_id_ip, remote_id_mac, remote_id_invalid, replace_text,
}
use ops_ipapps.Relay.{same_text}
use ops_ipapps.Cli.RelayConfig.{keep_text}
use ops_ipapps.Cli.RelayRequest.{
  Request, validate_text, r_id_of, dhcp_relay_configuration, options_validate, options_policy,
  dhcp_relay_keep_option_configuration, dhcp_relay_drop_option_configuration,
  dhcp_relay_drop_validate_option_configuration, dhcp_relay_drop_remote_id_mac_option_configuration,
  dhcp_relay_drop_remote_id_ip_option_configuration, dhcp_relay_replace_option_configuration,
  dhcp_relay_replace_validate_option_configuration,
  dhcp_relay_replace_remote_id_mac_option_configuration,
  dhcp_relay_replace_remote_id_ip_option_configuration,
  dhcp_relay_validate_policy_option_configuration, dhcp_relay_validate_drop_option_configuration,
  dhcp_relay_validate_replace_option_configuration, no_dhcp_relay_option_configuration,
  no_dhcp_relay_configuration,
}
use ops_ipapps.Cli.RelayCommands.{
  Command, relay, no_relay, no_option82, option82, option82_keep, option82_drop,
  option82_drop_validate, option82_drop_mac, option82_drop_ip, option82_replace,
  option82_replace_validate, option82_replace_mac, option82_replace_ip, option82_validate,
  option82_validate_drop, option82_validate_replace, request_of,
}
use ops_ipapps.Cli.Asked.{Wish, asked}

-- Nothing is to change.
abbrev nothing : Wish
nothing = record {
  relay = none;
  hop_count = none;
  option82 = none;
  validate = none;
  policy = invalid;
  r_id = remote_id_invalid;
}

-- The relay and option 82 on.
abbrev option82_on : Wish
option82_on = record nothing { relay = some enable; option82 = some enable }

-- And validation on.
abbrev validation_on : Wish
validation_on = record option82_on { validate = some enable }

-- What the words of each command ask for; each "option 82" command turns the relay on too.
abbrev pub wish : Command → Wish
wish (relay none) = record nothing { relay = some enable }
wish (relay (some _)) = record nothing { hop_count = some enable }
wish (no_relay none) = record {
  relay = some disable;
  hop_count = none;
  option82 = some disable;
  validate = some disable;
  policy = replace;
  r_id = remote_id_mac;
}
wish (no_relay (some _)) = record nothing { hop_count = some disable }
wish (no_option82 none) = record nothing {
  option82 = some disable;
  validate = some disable;
  policy = replace;
  r_id = remote_id_mac;
}
wish (no_option82 (some _)) = record nothing { validate = some disable }
wish (option82 word) =
    if same_text word validate_text
    then validation_on
    else if same_text word keep_text
    then record option82_on { validate = some disable; policy = keep }
    else if same_text word replace_text
    then record option82_on { policy = replace }
    else record option82_on { policy = drop }
wish (option82_keep word) = record option82_on {
  validate = some disable;
  policy = keep;
  r_id = r_id_of word;
}
wish (option82_drop word) =
    if same_text word validate_text
    then record validation_on { policy = drop }
    else record option82_on { policy = drop; r_id = r_id_of word }
wish (option82_drop_validate word) = record validation_on { policy = drop; r_id = r_id_of word }
wish (option82_drop_mac _) = record validation_on { policy = drop; r_id = remote_id_mac }
wish (option82_drop_ip _) = record validation_on { policy = drop; r_id = remote_id_ip }
wish (option82_replace word) =
    if same_text word validate_text
    then record validation_on { policy = replace }
    else record option82_on { policy = replace; r_id = r_id_of word }
wish (option82_replace_validate word) = record validation_on {
  policy = replace;
  r_id = r_id_of word;
}
wish (option82_replace_mac _) = record validation_on { policy = replace; r_id = remote_id_mac }
wish (option82_replace_ip _) = record validation_on { policy = replace; r_id = remote_id_ip }
wish (option82_validate word) =
    if same_text word replace_text
    then record validation_on { policy = replace }
    else record validation_on { policy = drop }
wish (option82_validate_drop word) = record validation_on { policy = drop; r_id = r_id_of word }
wish (option82_validate_replace word) = record validation_on {
  policy = replace;
  r_id = r_id_of word;
}

-- What each command writes: `validate replace` sets the policy to drop, and `drop` with an argument
-- leaves the relay itself as it is.
abbrev pub written : Command → Wish
written (option82_drop word) =
    if same_text word validate_text
    then record validation_on { relay = none; policy = drop }
    else record option82_on { relay = none; policy = drop; r_id = r_id_of word }
written (option82_validate_replace word) = record validation_on {
  policy = drop;
  r_id = r_id_of word;
}
written c = wish c

-- Every command but `option 82 validate replace (mac|ip)` and `option 82 drop (validate|mac|ip)`.
abbrev pub keeps_words : Command → Bool
keeps_words (option82_validate_replace word) = false
keeps_words (option82_drop word) = false
keeps_words _ = true

pub written-wish : (c : Command) → keeps_words c ≡ true → written c ≡ wish c
written-wish (option82_validate_replace word) k = cc
written-wish (option82_drop word) k = cc
written-wish c k = refl

abbrev pub asks : Request → Wish
asks r = asked r.update_features r.config_value

pub options_validate-written :
    (word : Text)
    → same_text word validate_text ≡ true
    → asks options_validate ≡ written (option82 word)
unfolding options_validate get_feature_status set_feature_status
options_validate-written word v = simp v refl

pub options_policy-written :
    (word : Text)
    → same_text word validate_text ≡ false
    → asks (options_policy word) ≡ written (option82 word)
unfolding options_policy get_feature_status set_feature_status
options_policy-written word p = ground arith

pub request_of-written : (c : Command) → asks (request_of c) ≡ written c
unfolding dhcp_relay_configuration options_validate options_policy
    dhcp_relay_keep_option_configuration dhcp_relay_drop_option_configuration
    dhcp_relay_drop_validate_option_configuration dhcp_relay_drop_remote_id_mac_option_configuration
    dhcp_relay_drop_remote_id_ip_option_configuration dhcp_relay_replace_option_configuration
    dhcp_relay_replace_validate_option_configuration
    dhcp_relay_replace_remote_id_mac_option_configuration
    dhcp_relay_replace_remote_id_ip_option_configuration
    dhcp_relay_validate_policy_option_configuration dhcp_relay_validate_drop_option_configuration
    dhcp_relay_validate_replace_option_configuration no_dhcp_relay_option_configuration
    no_dhcp_relay_configuration get_feature_status set_feature_status
request_of-written (relay none) = refl
request_of-written (relay (some _)) = refl
request_of-written (no_relay none) = refl
request_of-written (no_relay (some _)) = refl
request_of-written (no_option82 none) = refl
request_of-written (no_option82 (some _)) = refl
request_of-written (option82 word) = ground arith
request_of-written (option82_keep word) = refl
request_of-written (option82_drop word) = ground arith
request_of-written (option82_drop_validate word) = refl
request_of-written (option82_drop_mac _) = refl
request_of-written (option82_drop_ip _) = refl
request_of-written (option82_replace word) = ground arith
request_of-written (option82_replace_validate word) = refl
request_of-written (option82_replace_mac _) = refl
request_of-written (option82_replace_ip _) = refl
request_of-written (option82_validate word) = ground arith
request_of-written (option82_validate_drop word) = refl
request_of-written (option82_validate_replace word) = refl
