-- ===== src/Cli/RelayCommands.antt =====
-- The DHCP relay commands of relay/udpfwd/src/cli/dhcp_relay_vty.c as they run on the database.
use ops_ipapps.Base.{Bool, false, Option, none, some, if◌then◌else◌, Text}
use ops_ipapps.Relay.{same_text}
use ops_ipapps.Cli.{Answer, Ovsdb, v4relay_option82_policy, Smap, keep_and_validate, failed, told}
use ops_ipapps.Cli.RelayConfig.{keep_text, dhcp_relay_config}
use ops_ipapps.Cli.RelayRequest.{
  Request, validate_text, dhcp_relay_configuration, options_validate, options_policy,
  dhcp_relay_keep_option_configuration, dhcp_relay_drop_option_configuration,
  dhcp_relay_drop_validate_option_configuration, dhcp_relay_drop_remote_id_mac_option_configuration,
  dhcp_relay_drop_remote_id_ip_option_configuration, dhcp_relay_replace_option_configuration,
  dhcp_relay_replace_validate_option_configuration,
  dhcp_relay_replace_remote_id_mac_option_configuration,
  dhcp_relay_replace_remote_id_ip_option_configuration,
  dhcp_relay_validate_policy_option_configuration, dhcp_relay_validate_drop_option_configuration,
  dhcp_relay_validate_replace_option_configuration, no_dhcp_relay_option_configuration,
  no_dhcp_relay_configuration,
}

-- The command strings of the DEFUNs. A word in braces may be left out, one in parentheses may not.
pub data Command : Type 0 where
  relay no_relay no_option82 : Option Text → Command
  option82 option82_keep option82_drop option82_drop_validate option82_drop_mac : Text → Command
  option82_drop_ip option82_replace option82_replace_validate option82_replace_mac : Text → Command
  option82_replace_ip option82_validate option82_validate_drop : Text → Command
  option82_validate_replace : Text → Command

-- The request of a command. "option 82 validate" makes its own after it has looked at the database.
abbrev pub request_of : Command → Request
request_of (relay arg) = dhcp_relay_configuration arg
request_of (no_relay arg) = no_dhcp_relay_configuration arg
request_of (no_option82 arg) = no_dhcp_relay_option_configuration arg
request_of (option82 arg) =
    if same_text arg validate_text then options_validate else options_policy arg
request_of (option82_keep arg) = dhcp_relay_keep_option_configuration (some arg)
request_of (option82_drop arg) = dhcp_relay_drop_option_configuration (some arg)
request_of (option82_drop_validate arg) = dhcp_relay_drop_validate_option_configuration (some arg)
request_of (option82_drop_mac arg) = dhcp_relay_drop_remote_id_mac_option_configuration (some arg)
request_of (option82_drop_ip arg) = dhcp_relay_drop_remote_id_ip_option_configuration (some arg)
request_of (option82_replace arg) = dhcp_relay_replace_option_configuration (some arg)
request_of (option82_replace_validate arg) =
    dhcp_relay_replace_validate_option_configuration (some arg)
request_of (option82_replace_mac arg) =
    dhcp_relay_replace_remote_id_mac_option_configuration (some arg)
request_of (option82_replace_ip arg) =
    dhcp_relay_replace_remote_id_ip_option_configuration (some arg)
request_of (option82_validate arg) = dhcp_relay_validate_policy_option_configuration (some arg)
request_of (option82_validate_drop arg) = dhcp_relay_validate_drop_option_configuration (some arg)
request_of (option82_validate_replace arg) =
    dhcp_relay_validate_replace_option_configuration (some arg)

module _ {M : Type 0} (smap : Smap M) where
  abbrev pub submit : Ovsdb (Option M) → Request → Option M → Option (Answer (Option M))
  submit o r row = dhcp_relay_config smap o r.update_features r.config_value row

  -- policy && strcmp(policy, policy_name[KEEP]) == 0
  abbrev pub is_keep : Option Text → Bool
  is_keep none = false
  is_keep (some policy) = same_text policy keep_text

  abbrev pub validate_row : Ovsdb (Option M) → Option M → Option (Answer (Option M))
  validate_row o none = some (failed none)
  validate_row o (some column) =
      if is_keep (smap.get column v4relay_option82_policy)
      then some (told keep_and_validate (some column))
      else submit o options_validate (some column)

  unfoldable pub dhcp_relay_options_configuration :
      Ovsdb (Option M) → Text → Option M → Option (Answer (Option M))
  dhcp_relay_options_configuration o arg row =
      if same_text arg validate_text then validate_row o row else submit o (options_policy arg) row

  unfoldable pub execute : Ovsdb (Option M) → Command → Option M → Option (Answer (Option M))
  unfolding dhcp_relay_options_configuration
  execute o (option82 arg) row = dhcp_relay_options_configuration o arg row
  execute o c row = submit o (request_of c) row
