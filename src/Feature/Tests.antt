-- ===== src/Feature/Tests.antt =====
-- The feature bitmap on concrete values.
use ops_ipapps.Base.{◌≡◌, refl}
use ops_ipapps.Feature.{
  dhcp_relay, dhcp_relay_option82, enable, get_feature_status, set_feature_status,
}

-- A feature that is set reads as enabled, and another one as before.
reads_set :
    get_feature_status (set_feature_status 4 dhcp_relay_option82 enable) dhcp_relay_option82
    ≡ enable
unfolding get_feature_status set_feature_status
reads_set = refl

reads_other :
    get_feature_status (set_feature_status 4 dhcp_relay_option82 enable) dhcp_relay
    ≡ get_feature_status 4 dhcp_relay
unfolding get_feature_status set_feature_status
reads_other = refl
