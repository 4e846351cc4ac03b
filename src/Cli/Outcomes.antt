-- ===== src/Cli/Outcomes.antt =====
-- What a DHCP relay command does to the database, in each of its cases.
use ops_ipapps.Base.{
  subst, ◌≡◌, refl, ap, ◌⊎◌, inl, inr, Bool, true, false, ◌&&◌, Option, none, some, if◌then◌else◌,
  Text, Bool-cases, if_elim,
}
use ops_ipapps.Relay.{same_text}
use ops_ipapps.Cli.{
  Answer, Ovsdb, IsAtomic, committed, v4relay_option82_policy, Smap, IsSmap, cmd_success,
  keep_and_validate, failed, told, finish_txn,
}
use ops_ipapps.Cli.RelayConfig.{dhcp_relay_config}
use ops_ipapps.Cli.RelayRequest.{Request, validate_text, options_validate, options_policy}
use ops_ipapps.Cli.RelayCommands.{
  Command, option82, request_of, is_keep, submit, validate_row, dhcp_relay_options_configuration,
  execute,
}
use ops_ipapps.Cli.Asked.{Wish, Grants, granted, granted-Grants, update_column-granted}
use ops_ipapps.Cli.Wishes.{
  wish, written, keeps_words, written-wish, asks, request_of-written, options_validate-written,
  options_policy-written,
}

-- A command that wrote its column.
abbrev pub done : {S : Type 0} → S → Answer S
done s = record { code = cmd_success; said = none; db = s }

pub finish_txn_lem :
    {S : Type 0} (o : Ovsdb S) (old new : S)
    → IsAtomic o
    → finish_txn o old new ≡ (if committed (o.finish old new).0 then done new else failed old)
unfolding finish_txn
finish_txn_lem o old new atomic = elim (Bool-cases (committed (o.finish old new).0)) [
  | inl h ↦ simp (h, atomic.taken old new h) refl
  | inr h ↦ simp (h, atomic.refused old new h) refl
]

module _ {M : Type 0} (smap : Smap M) where
  -- "option 82 validate" on a column whose policy is keep
  abbrev pub refuses : Command → M → Bool
  refuses (option82 word) column =
      same_text word validate_text && is_keep smap (smap.get column v4relay_option82_policy)
  refuses _ column = false

  abbrev refuses_row : Command → Option M → Bool
  refuses_row c none = false
  refuses_row c (some column) = refuses c column

  refuses_row-policy :
      (word : Text) (row : Option M)
      → same_text word validate_text ≡ false
      → refuses_row (option82 word) row ≡ false
  refuses_row-policy word none p = refl
  refuses_row-policy word (some column) p = simp p refl

  -- Why a command fails: no transaction, no System row, or a commit that was not taken.
  abbrev pub Fails : Ovsdb (Option M) → Option M → Type 0
  Fails o row =
      (o.started ≡ false)
      ⊎ (row ≡ none)
      ⊎ ((new : Option M) × (committed (o.finish row new).0 ≡ false))

  pub data Outcome (o : Ovsdb (Option M)) (w : Wish) (c : Command) (row : Option M)
      : Answer (Option M) → Type 0 where
    failure : Fails o row → Outcome o w c row (failed row)
    refusal :
        (column : M)
        → row ≡ some column
        → refuses c column ≡ true
        → Outcome o w c row (told keep_and_validate row)
    success :
        (old new : M)
        → row ≡ some old
        → refuses c old ≡ false
        → Grants smap w old new
        → Outcome o w c row (done (some new))

  module _ (laws : IsSmap smap) (o : Ovsdb (Option M)) (atomic : IsAtomic o) where
    -- The end of a command on a row, by the status of its commit.
    commit-Outcome :
        (c : Command) (column : M)
        → refuses c column ≡ false
        → Outcome o (written c) c (some column) (
            if committed (o.finish (some column) (some (granted smap (written c) column))).0
            then done (some (granted smap (written c) column))
            else failed (some column))
    commit-Outcome c column h =
        if_elim (Outcome o (written c) c (some column)) _ _ _
          (λ taken. success column _ refl h (granted-Grants smap laws (written c) column))
          (λ not_taken. failure (inr (inr (_, not_taken))))

    config-Outcome :
        (c : Command) (r : Request) (row : Option M)
        → asks r ≡ written c
        → refuses_row c row ≡ false
        → (a : Answer (Option M)) × (submit smap o r row ≡ some a) × Outcome o (written c) c row a
    unfolding dhcp_relay_config
    config-Outcome c r none e h = elim (Bool-cases o.started) [
      | inl s ↦ (failed none, simp s refl, failure (inr (inl refl)))
      | inr n ↦ (failed none, simp n refl, failure (inl n))
    ]
    config-Outcome c r (some column) e h = elim (Bool-cases o.started) [
      | inl s ↦ (
        finish_txn o (some column) (some (granted smap (written c) column)),
        simp (s, update_column-granted)
            (ap (λ w. some (finish_txn o (some column) (some (granted smap w column)))) e),
        rw (finish_txn_lem o (some column) (some (granted smap (written c) column)) atomic)
            (commit-Outcome c column h),
      )
      | inr n ↦ (failed (some column), simp n refl, failure (inl n))
    ]

    validate-Outcome :
        (word : Text) (row : Option M)
        → same_text word validate_text ≡ true
        → (a : Answer (Option M)) × (validate_row smap o row ≡ some a)
          × Outcome o (written (option82 word)) (option82 word) row a
    validate-Outcome word none v = (failed none, refl, failure (inr (inl refl)))
    validate-Outcome word (some column) v =
        elim (Bool-cases (is_keep smap (smap.get column v4relay_option82_policy))) [
          | inl k ↦ (
            told keep_and_validate (some column),
            simp k refl,
            refusal column refl (simp (v, k) refl),
          )
          | inr k ↦
              let (a, runs, outcome) =
                config-Outcome (option82 word) options_validate (some column)
                  (options_validate-written word v) (simp (v, k) refl) in
              (a, simp k runs, outcome)
        ]

    -- The outcome of each command, by what it writes.
    pub execute-written-Outcome :
        (c : Command) (row : Option M)
        → (a : Answer (Option M)) × (execute smap o c row ≡ some a) × Outcome o (written c) c row a
    unfolding execute dhcp_relay_options_configuration
    execute-written-Outcome (option82 word) row = elim (Bool-cases (same_text word validate_text)) [
      | inl v ↦ let (a, runs, outcome) = validate-Outcome word row v in (a, simp v runs, outcome)
      | inr p ↦
          let (a, runs, outcome) =
            config-Outcome (option82 word) (options_policy word) row (options_policy-written word p)
              (refuses_row-policy word row p) in
          (a, simp p runs, outcome)
    ]
    execute-written-Outcome c none =
        config-Outcome c (request_of c) none (request_of-written c) refl
    execute-written-Outcome c (some column) =
        config-Outcome c (request_of c) (some column) (request_of-written c) refl

    -- Every DHCP relay command but "option 82 validate replace (mac|ip)" and "option 82 drop
    -- (validate|mac|ip)", with no column or any, with any transaction that is all or nothing, runs to an end without passing a NULL pointer to the
    -- string map, and is one of: a failure, with the database as it was, only without a transaction,
    -- without a System row, or on a commit that was not taken; the refusal of "option 82 validate" on
    -- a policy "keep", which says so; a success, after which each key of the column that the command's
    -- words are about reads as they say, and each other key as before.
    pub execute-Outcome :
        (c : Command) (row : Option M)
        → keeps_words c ≡ true
        → (a : Answer (Option M)) × (execute smap o c row ≡ some a) × Outcome o (wish c) c row a
    execute-Outcome c row k =
        let (a, runs, outcome) = execute-written-Outcome c row in
        (a, runs, subst (λ w. Outcome o w c row a) (written-wish c k) outcome)
