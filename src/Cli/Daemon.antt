-- ===== src/Cli/Daemon.antt =====
-- The DHCP relay commands and the daemon of relay/udpfwd/src/udpfwd.c together: what a command asks
-- for is what the daemon is configured to once it has read the column.
use ops_ipapps.Base.{◌≡◌, refl, true, subst, Option, none, some, if◌then◌else◌, Text}
use ops_ipapps.Feature.{
  FeatureStatus, dhcp_relay, dhcp_relay_hop_count_increment, dhcp_relay_option82,
  dhcp_relay_option82_validate, disable, enable,
}
use ops_ipapps.Feature.Laws.{IsBitmap}
use ops_ipapps.Global.{
  Option82Policy, Option82RemoteId, GlobalConfig, keep, drop, replace, invalid, remote_id_ip,
  remote_id_mac, remote_id_invalid, replace_text, drop_text, ip_text, spells, unless_true,
  when_true, process_globalconfig_update,
}
use ops_ipapps.Global.Columns.{bitmap, status}
use ops_ipapps.Global.Laws.{process_globalconfig_update-Follows}
use ops_ipapps.Cli.{
  Answer, Ovsdb, IsAtomic, cmd_success, v4relay_disabled, v4relay_hop_count_increment_disabled,
  v4relay_option82_enabled, v4relay_option82_validation_enabled, v4relay_option82_policy,
  v4relay_option82_remote_id, Smap, IsSmap,
}
use ops_ipapps.Cli.RelayConfig.{policy_text, remote_id_text}
use ops_ipapps.Cli.RelayCommands.{Command, option82_validate_replace, execute}
use ops_ipapps.Cli.Asked.{Wish, Grants, on_text, off_text, or_else}
use ops_ipapps.Cli.Wishes.{wish, written, keeps_words}
use ops_ipapps.Cli.Outcomes.{
  Outcome, failure, refusal, success, execute-Outcome, execute-written-Outcome,
}
use ops_ipapps.Cli.Show.{row_of}

-- A feature's status, a policy and a remote id that are as wished, if the wish says something.
abbrev pub IsStatus : Option FeatureStatus → FeatureStatus → Type 0
IsStatus none status = Unit
IsStatus (some wanted) status = status ≡ wanted

abbrev pub IsPolicyOf : Option82Policy → Option82Policy → Type 0
IsPolicyOf invalid policy = Unit
IsPolicyOf wanted policy = policy ≡ wanted

abbrev pub IsRemoteIdOf : Option82RemoteId → Option82RemoteId → Type 0
IsRemoteIdOf remote_id_invalid r_id = Unit
IsRemoteIdOf wanted r_id = r_id ≡ wanted

-- A configuration that is as wished.
pub record Obeys (w : Wish) (g : GlobalConfig) : Type 0 where
  pub relay : IsStatus w.relay (status g dhcp_relay)
  pub hop_count : IsStatus w.hop_count (status g dhcp_relay_hop_count_increment)
  pub option82 : IsStatus w.option82 (status g dhcp_relay_option82)
  pub validate : IsStatus w.validate (status g dhcp_relay_option82_validate)
  pub policy : IsPolicyOf w.policy g.feature_config.policy
  pub r_id : IsRemoteIdOf w.r_id g.feature_config.r_id

off_text-unless_true :
    (o : Option FeatureStatus) (old : Option Text)
    → IsStatus o (unless_true (or_else (off_text o) old))
off_text-unless_true none old = tt
off_text-unless_true (some enable) old = refl
off_text-unless_true (some disable) old = refl

on_text-when_true :
    (o : Option FeatureStatus) (old : Option Text)
    → IsStatus o (when_true (or_else (on_text o) old))
on_text-when_true none old = tt
on_text-when_true (some enable) old = refl
on_text-when_true (some disable) old = refl

-- The policy and the remote id that the daemon reads from a text.
abbrev read_policy : Option Text → Option82Policy
read_policy o = if spells o replace_text then replace else if spells o drop_text then drop else keep

abbrev read_r_id : Option Text → Option82RemoteId
read_r_id o = if spells o ip_text then remote_id_ip else remote_id_mac

policy_text-read_policy :
    (p : Option82Policy) (old : Option Text)
    → IsPolicyOf p (read_policy (or_else (policy_text p) old))
policy_text-read_policy keep old = refl
policy_text-read_policy drop old = refl
policy_text-read_policy replace old = refl
policy_text-read_policy invalid old = tt

remote_id_text-read_r_id :
    (i : Option82RemoteId) (old : Option Text)
    → IsRemoteIdOf i (read_r_id (or_else (remote_id_text i) old))
remote_id_text-read_r_id remote_id_ip old = refl
remote_id_text-read_r_id remote_id_mac old = refl
remote_id_text-read_r_id remote_id_invalid old = tt

module _ {M : Type 0} (smap : Smap M) where
  Grants-Obeys :
      (w : Wish) (old new : M) (g : GlobalConfig)
      → IsBitmap (bitmap g)
      → Grants smap w old new
      → Obeys w (process_globalconfig_update (some (row_of smap new)) g)
  Grants-Obeys w old new g b grants =
      let f = process_globalconfig_update-Follows (row_of smap new) g b refl in
      record {
        relay = rw (f.relay, grants v4relay_disabled) (off_text-unless_true w.relay _);
        hop_count =
            rw (f.hop_count, grants v4relay_hop_count_increment_disabled)
              (off_text-unless_true w.hop_count _);
        option82 =
            rw (f.option82, grants v4relay_option82_enabled) (on_text-when_true w.option82 _);
        validate =
            rw (f.validate, grants v4relay_option82_validation_enabled)
              (on_text-when_true w.validate _);
        policy = rw (f.policy, grants v4relay_option82_policy) (policy_text-read_policy w.policy _);
        r_id = rw (f.r_id, grants v4relay_option82_remote_id) (remote_id_text-read_r_id w.r_id _);
      }

  -- The database after an answer holds a column that makes the daemon obey a wish.
  abbrev pub ObeysIn : Wish → GlobalConfig → Answer (Option M) → Type 0
  ObeysIn w g a =
      (new : M) × (a.db ≡ some new)
      × Obeys w (process_globalconfig_update (some (row_of smap new)) g)

  Outcome-Obeys :
      (o : Ovsdb (Option M)) (w : Wish) (c : Command) (row : Option M) (g : GlobalConfig)
      (a : Answer (Option M))
      → IsBitmap (bitmap g)
      → Outcome smap o w c row a
      → a.code ≡ cmd_success
      → a.said ≡ none
      → ObeysIn w g a
  Outcome-Obeys o w c row g _ b (failure _) ok quiet = cc
  Outcome-Obeys o w c row g _ b (refusal _ _ _) ok quiet = cc
  Outcome-Obeys o w c row g _ b (success old new is n grants) ok quiet =
      (new, refl, Grants-Obeys w old new g b grants)

  -- When a DHCP relay command other than "option 82 validate replace (mac|ip)" and "option 82
  -- drop (validate|mac|ip)" has reported success and no refusal, the database holds a column that
  -- the daemon, whatever its configuration was, turns into what the command's words ask for: each
  -- feature that the command sets has its status, and the policy and the remote id are the command's
  -- where it has one.
  pub execute-Obeys :
      (o : Ovsdb (Option M)) (c : Command) (row : Option M) (g : GlobalConfig)
      (a : Answer (Option M))
      → IsSmap smap
      → IsAtomic o
      → IsBitmap (bitmap g)
      → keeps_words c ≡ true
      → execute smap o c row ≡ some a
      → a.code ≡ cmd_success
      → a.said ≡ none
      → ObeysIn (wish c) g a
  execute-Obeys o c row g a laws atomic b keeps runs ok quiet =
      let (a', runs', outcome) = execute-Outcome smap laws o atomic c row keeps in
      let same : a' ≡ a = cc in
      Outcome-Obeys o (wish c) c row g a b (subst (Outcome smap o (wish c) c row) same outcome) ok
        quiet

  -- "option 82 validate replace (mac|ip)", when it has reported success, leaves a column that makes
  -- the daemon drop: its words ask for the policy replace.
  validate_replace-drops :
      (o : Ovsdb (Option M)) (word : Text) (row : Option M) (g : GlobalConfig)
      (a : Answer (Option M))
      → IsSmap smap
      → IsAtomic o
      → IsBitmap (bitmap g)
      → execute smap o (option82_validate_replace word) row ≡ some a
      → a.code ≡ cmd_success
      → a.said ≡ none
      → ObeysIn (written (option82_validate_replace word)) g a
  validate_replace-drops o word row g a laws atomic b runs ok quiet =
      let c = option82_validate_replace word in
      let (a', runs', outcome) = execute-written-Outcome smap laws o atomic c row in
      let same : a' ≡ a = cc in
      Outcome-Obeys o (written c) c row g a b
        (subst (Outcome smap o (written c) c row) same outcome) ok quiet
