-- ===== src/Feature/Laws.antt =====
-- What the two accessors of udpfwd_util.c promise each other, by a table over all bitmaps.
use ops_ipapps.Base.{
  ℕ, ◌<◌, ◌≡◌, ◌≢◌, refl, Bool, true, false, ◌&&◌, ltb, if◌then◌else◌, arith, holds_up_to,
  holds_up_to-row,
}
use ops_ipapps.Feature.{
  Feature, FeatureStatus, udp_bcast_forwarder, dhcp_relay, dhcp_relay_hop_count_increment,
  dhcp_relay_option82, dhcp_relay_option82_validate, invalid_feature, disable, enable,
  get_feature_status, set_feature_status,
}

abbrev pub status_eq : FeatureStatus → FeatureStatus → Bool
status_eq disable disable = true
status_eq enable enable = true
status_eq _ _ = false

abbrev pub feature_eq : Feature → Feature → Bool
feature_eq udp_bcast_forwarder udp_bcast_forwarder = true
feature_eq dhcp_relay dhcp_relay = true
feature_eq dhcp_relay_hop_count_increment dhcp_relay_hop_count_increment = true
feature_eq dhcp_relay_option82 dhcp_relay_option82 = true
feature_eq dhcp_relay_option82_validate dhcp_relay_option82_validate = true
feature_eq invalid_feature invalid_feature = true
feature_eq _ _ = false

-- The bits of the features lie below this bound.
abbrev pub IsBitmap : ℕ → Type 0
IsBitmap value = value < 0x40

agrees : Feature → Feature → FeatureStatus → ℕ → Bool
unfolding get_feature_status set_feature_status
agrees f g s v =
    status_eq (get_feature_status (set_feature_status v f s) g)
      (if feature_eq f g then s else get_feature_status v g)
    && ltb (set_feature_status v f s) 0x40

-- One run of both accessors for each bitmap, feature set, feature read and status.
table :
    (s : FeatureStatus) (f g : Feature)
    → f ≢ invalid_feature
    → holds_up_to (agrees f g s) 0x40 ≡ true
unfolding holds_up_to agrees
table s invalid_feature g valid = absurd (valid refl)
table disable udp_bcast_forwarder udp_bcast_forwarder valid = refl
table disable udp_bcast_forwarder _ valid = refl
table disable dhcp_relay udp_bcast_forwarder valid = refl
table disable dhcp_relay _ valid = refl
table disable dhcp_relay_hop_count_increment udp_bcast_forwarder valid = refl
table disable dhcp_relay_hop_count_increment _ valid = refl
table disable dhcp_relay_option82 udp_bcast_forwarder valid = refl
table disable dhcp_relay_option82 _ valid = refl
table disable dhcp_relay_option82_validate udp_bcast_forwarder valid = refl
table disable dhcp_relay_option82_validate _ valid = refl
table enable udp_bcast_forwarder udp_bcast_forwarder valid = refl
table enable udp_bcast_forwarder _ valid = refl
table enable dhcp_relay udp_bcast_forwarder valid = refl
table enable dhcp_relay _ valid = refl
table enable dhcp_relay_hop_count_increment udp_bcast_forwarder valid = refl
table enable dhcp_relay_hop_count_increment _ valid = refl
table enable dhcp_relay_option82 udp_bcast_forwarder valid = refl
table enable dhcp_relay_option82 _ valid = refl
table enable dhcp_relay_option82_validate udp_bcast_forwarder valid = refl
table enable dhcp_relay_option82_validate _ valid = refl

pub status_eq→eq : (s t : FeatureStatus) → status_eq s t ≡ true → s ≡ t
status_eq→eq disable disable h = refl
status_eq→eq enable enable h = refl
status_eq→eq disable enable h = cc
status_eq→eq enable disable h = cc

-- Setting a feature in a bitmap of feature bits makes that feature read as set, leaves what every
-- other feature reads as it was, and gives a bitmap of feature bits.
pub get-set_feature_status :
    (v : ℕ) (f g : Feature) (s : FeatureStatus)
    → IsBitmap v
    → f ≢ invalid_feature
    → (get_feature_status (set_feature_status v f s) g
        ≡ (if feature_eq f g then s else get_feature_status v g))
      × IsBitmap (set_feature_status v f s)
unfolding agrees
get-set_feature_status v f g s bound valid = ground (
  arith,
  holds_up_to-row (agrees f g s) v 0x40 bound (table s f g valid),
  status_eq→eq (get_feature_status (set_feature_status v f s) g)
      (if feature_eq f g then s else get_feature_status v g),
)
