-- ===== src/Cli/Columns.antt =====
-- The dhcp_config columns that the DHCP relay commands can leave in the database.
use ops_ipapps.Base.{
  ◌≡◌, ◌≢◌, refl, sym, ap, subst, ◌∙◌, Bool, true, false, ◌&&◌, Option, none, some, Text, arith,
  Bool-cases, inl, inr,
}
use ops_ipapps.Feature.{FeatureStatus, is_enabled}
use ops_ipapps.Global.{
  Option82Policy, Option82RemoteId, keep, drop, replace, invalid, true_text, remote_id_ip,
  remote_id_mac, remote_id_invalid,
}
use ops_ipapps.Relay.{same_text}
use ops_ipapps.Cli.{
  Answer, Ovsdb, IsAtomic, Key, v4relay_disabled, v4relay_hop_count_increment_disabled,
  v4relay_option82_enabled, v4relay_option82_validation_enabled, v4relay_option82_policy,
  v4relay_option82_remote_id, Smap, IsSmap,
}
use ops_ipapps.Cli.RelayConfig.{policy_text, remote_id_text, status_text, opposite, keep_text}
use ops_ipapps.Cli.RelayRequest.{validate_text}
use ops_ipapps.Cli.RelayCommands.{
  Command, relay, no_relay, no_option82, option82, option82_drop, option82_replace,
  option82_validate, is_keep, execute,
}
use ops_ipapps.Cli.Asked.{Wish, Grants, on_text, off_text, or_else}
use ops_ipapps.Cli.Wishes.{written}
use ops_ipapps.Cli.Outcomes.{refuses, Outcome, failure, refusal, success, execute-written-Outcome}

-- A key that is missing, or holds the text of a status.
pub data IsSwitch : Option Text → Type 0 where
  missing : IsSwitch none
  set : (s : FeatureStatus) → IsSwitch (some (status_text s))

-- A policy and a validation status that go together: not "keep" with "true".
abbrev pub Compatible : Option Text → Option Text → Type 0
Compatible policy validation = ¬ ((policy ≡ some keep_text) × (validation ≡ some true_text))

on_text-IsSwitch :
    (s : Option FeatureStatus) (old : Option Text)
    → IsSwitch old
    → IsSwitch (or_else (on_text s) old)
on_text-IsSwitch none old h = h
on_text-IsSwitch (some s) old h = set s

off_text-IsSwitch :
    (s : Option FeatureStatus) (old : Option Text)
    → IsSwitch old
    → IsSwitch (or_else (off_text s) old)
off_text-IsSwitch none old h = h
off_text-IsSwitch (some s) old h = set (opposite s)

-- A text that is missing or one of the policies', and one of the remote ids'.
abbrev pub IsPolicy : Option Text → Type 0
IsPolicy o = (p : Option82Policy) × (o ≡ policy_text p)

abbrev pub IsRemoteId : Option Text → Type 0
IsRemoteId o = (i : Option82RemoteId) × (o ≡ remote_id_text i)

policy_text-IsPolicy :
    (p : Option82Policy) (old : Option Text) → IsPolicy old → IsPolicy (or_else (policy_text p) old)
policy_text-IsPolicy invalid old h = h
policy_text-IsPolicy keep old h = (keep, refl)
policy_text-IsPolicy drop old h = (drop, refl)
policy_text-IsPolicy replace old h = (replace, refl)

remote_id_text-IsRemoteId :
    (i : Option82RemoteId) (old : Option Text)
    → IsRemoteId old
    → IsRemoteId (or_else (remote_id_text i) old)
remote_id_text-IsRemoteId remote_id_invalid old h = h
remote_id_text-IsRemoteId remote_id_ip old h = (remote_id_ip, refl)
remote_id_text-IsRemoteId remote_id_mac old h = (remote_id_mac, refl)

-- Whether a wish may turn validation on under a policy that it leaves as it is.
abbrev needs_policy : Wish → Bool
needs_policy w = elim w.policy [
  | invalid ↦ elim w.validate [ none ↦ false | some s ↦ is_enabled s ]
  | keep ↦ elim w.validate [ none ↦ true | some s ↦ is_enabled s ]
  | _ ↦ false
]

or_else-Compatible :
    (w : Wish) (p v : Option Text)
    → needs_policy w ≡ false
    → Compatible p v
    → Compatible (or_else (policy_text w.policy) p) (or_else (on_text w.validate) v)
or_else-Compatible w p v n h = ground arith

module _ {M : Type 0} (smap : Smap M) where
  -- The switches, the policy and the remote id are as the commands write them, and validation is
  -- not on under the policy "keep".
  pub record IsConfig (m : M) : Type 0 where
    pub relay : IsSwitch (smap.get m v4relay_disabled)
    pub hop_count : IsSwitch (smap.get m v4relay_hop_count_increment_disabled)
    pub option82 : IsSwitch (smap.get m v4relay_option82_enabled)
    pub validate : IsSwitch (smap.get m v4relay_option82_validation_enabled)
    pub policy : IsPolicy (smap.get m v4relay_option82_policy)
    pub r_id : IsRemoteId (smap.get m v4relay_option82_remote_id)
    pub compatible :
        Compatible
          (smap.get m v4relay_option82_policy)
          (smap.get m v4relay_option82_validation_enabled)

  is_keep_lem : (p : Option Text) → is_keep smap p ≡ false → p ≢ some keep_text
  is_keep_lem p n e =
      let impossible : is_keep smap (some keep_text) ≡ false = ap (is_keep smap) (sym e) ∙ n in cc

  -- "option 82 validate" turns validation on where the policy is not "keep".
  validate-Compatible :
      (word : Text) (p v : Option Text)
      → (same_text word validate_text && is_keep smap p) ≡ false
      → Compatible p v
      → Compatible
          (or_else (policy_text (written (option82 word)).policy) p)
          (or_else (on_text (written (option82 word)).validate) v)
  validate-Compatible word p v n h = elim (Bool-cases (same_text word validate_text)) [
    | inl y ↦
        let plain : is_keep smap p ≡ false = ground arith in
        simp y (λ both. is_keep_lem p plain both.0)
    | inr y ↦ or_else-Compatible (written (option82 word)) p v (ground arith) h
  ]

  written-Compatible :
      (c : Command) (m : M)
      → refuses smap c m ≡ false
      → let p = smap.get m v4relay_option82_policy in
        let v = smap.get m v4relay_option82_validation_enabled in
        Compatible p v
        → Compatible
            (or_else (policy_text (written c).policy) p)
            (or_else (on_text (written c).validate) v)
  written-Compatible (option82 word) m n h = validate-Compatible word _ _ n h
  written-Compatible (relay none) m n h = h
  written-Compatible (relay (some _)) m n h = h
  written-Compatible (no_relay none) m n h = or_else-Compatible (written (no_relay none)) _ _ refl h
  written-Compatible (no_relay (some _)) m n h = h
  written-Compatible (no_option82 none) m n h =
      or_else-Compatible (written (no_option82 none)) _ _ refl h
  written-Compatible (no_option82 (some w)) m n h =
      or_else-Compatible (written (no_option82 (some w))) _ _ refl h
  written-Compatible (option82_drop word) m n h =
      or_else-Compatible (written (option82_drop word)) _ _ (ground arith) h
  written-Compatible (option82_replace word) m n h =
      or_else-Compatible (written (option82_replace word)) _ _ (ground arith) h
  written-Compatible (option82_validate word) m n h =
      or_else-Compatible (written (option82_validate word)) _ _ (ground arith) h
  written-Compatible c m n h = or_else-Compatible (written c) _ _ refl h

  Grants-IsConfig :
      (c : Command) (old new : M)
      → refuses smap c old ≡ false
      → Grants smap (written c) old new
      → IsConfig old
      → IsConfig new
  Grants-IsConfig c old new n g h = record {
    relay = rw (g v4relay_disabled) (off_text-IsSwitch (written c).relay _ h.relay);
    hop_count =
        rw (g v4relay_hop_count_increment_disabled)
          (off_text-IsSwitch (written c).hop_count _ h.hop_count);
    option82 = rw (g v4relay_option82_enabled) (on_text-IsSwitch (written c).option82 _ h.option82);
    validate =
        rw (g v4relay_option82_validation_enabled)
          (on_text-IsSwitch (written c).validate _ h.validate);
    policy = rw (g v4relay_option82_policy) (policy_text-IsPolicy (written c).policy _ h.policy);
    r_id = rw (g v4relay_option82_remote_id) (remote_id_text-IsRemoteId (written c).r_id _ h.r_id);
    compatible =
        rw (g v4relay_option82_policy, g v4relay_option82_validation_enabled)
          (written-Compatible c old n h.compatible);
  }

  -- The columns that commands leave, from one with none of the keys. A command runs with any
  -- transaction that is all or nothing.
  pub data Reachable : M → Type 0 where
    start : (m : M) → ((k : Key) → smap.get m k ≡ none) → Reachable m
    command :
        (m m' : M) (c : Command) (o : Ovsdb (Option M)) (a : Answer (Option M))
        → Reachable m
        → IsAtomic o
        → execute smap o c (some m) ≡ some a
        → a.db ≡ some m'
        → Reachable m'

  Outcome-IsConfig :
      (o : Ovsdb (Option M)) (c : Command) (m m' : M) (a : Answer (Option M))
      → Outcome smap o (written c) c (some m) a
      → a.db ≡ some m'
      → IsConfig m
      → IsConfig m'
  Outcome-IsConfig o c m m' _ (failure _) e h = let same : m ≡ m' = cc in subst IsConfig same h
  Outcome-IsConfig o c m m' _ (refusal _ _ _) e h = let same : m ≡ m' = cc in subst IsConfig same h
  Outcome-IsConfig o c m m' _ (success old new is_old n g) e h =
      let here : old ≡ m = cc in
      let there : new ≡ m' = cc in
      subst IsConfig there (Grants-IsConfig c old new n g (subst IsConfig (sym here) h))

  -- In every column that the DHCP relay commands leave, run on a column with none of the keys: the
  -- four switches are missing, "true" or "false"; the policy and the remote id are missing or one of
  -- their names; and validation is not "true" under the policy "keep".
  pub Reachable-IsConfig : IsSmap smap → (m : M) → Reachable m → IsConfig m
  Reachable-IsConfig laws _ (start m e) = record {
    relay = rw (e v4relay_disabled) missing;
    hop_count = rw (e v4relay_hop_count_increment_disabled) missing;
    option82 = rw (e v4relay_option82_enabled) missing;
    validate = rw (e v4relay_option82_validation_enabled) missing;
    policy = (invalid, e v4relay_option82_policy);
    r_id = (remote_id_invalid, e v4relay_option82_remote_id);
    compatible = rw (e v4relay_option82_policy) (λ both. cc);
  }
  Reachable-IsConfig laws _ (command m m' c o a r atomic runs is) =
      let (b, runs', outcome) = execute-written-Outcome smap laws o atomic c (some m) in
      let same : b ≡ a = cc in
      Outcome-IsConfig o c m m' a (subst (Outcome smap o (written c) c (some m)) same outcome) is
        (Reachable-IsConfig laws m r)
