-- ===== src/Feature.antt =====
-- The feature bitmap of relay/udpfwd/src/udpfwd_util.c: which features of the relay daemon are on.
pub mod Tests
pub mod Laws
use ops_ipapps.Base.{ℕ, ◌-◌, Bool, ◌==◌, if◌then◌else◌, bit_and, bit_or}

pub data Feature : Type 0 where
  udp_bcast_forwarder dhcp_relay dhcp_relay_hop_count_increment : Feature
  dhcp_relay_option82 dhcp_relay_option82_validate invalid_feature : Feature

pub data FeatureStatus : Type 0 where
  disable enable : FeatureStatus

-- The mask of a feature. No statement of the two functions below runs for `invalid_feature`.
abbrev pub feature_bit : Feature → ℕ
feature_bit udp_bcast_forwarder = 0x0001
feature_bit dhcp_relay = 0x0002
feature_bit dhcp_relay_hop_count_increment = 0x0004
feature_bit dhcp_relay_option82 = 0x0008
feature_bit dhcp_relay_option82_validate = 0x0020
feature_bit invalid_feature = 0x0040

-- if (value & BIT) status = ENABLE;
unfoldable pub test_bit : ℕ → ℕ → FeatureStatus
test_bit value bit = if bit_and value bit == 0 then disable else enable

unfoldable pub get_feature_status : ℕ → Feature → FeatureStatus
unfolding test_bit
get_feature_status value invalid_feature = disable
get_feature_status value f = test_bit value (feature_bit f)

-- *value |= BIT and *value &= ~BIT on a uint16_t.
write_bit : ℕ → ℕ → FeatureStatus → ℕ
write_bit value bit enable = bit_or value bit
write_bit value bit disable = bit_and value (0xffff - bit)

unfoldable pub set_feature_status : ℕ → Feature → FeatureStatus → ℕ
unfolding write_bit
set_feature_status value invalid_feature status = value
set_feature_status value f status = write_bit value (feature_bit f) status

-- ENABLE == status
abbrev pub is_enabled : FeatureStatus → Bool
is_enabled enable = Bool.true
is_enabled disable = Bool.false
