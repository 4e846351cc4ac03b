-- ===== src/Cli/Forwarding.antt =====
-- udpfwd_globalconfig of relay/udpfwd/src/cli/udpfwd_vty.c and its two commands, and the daemon that
-- reads what they write.
use ops_ipapps.Base.{
  ◌≡◌, refl, ap, ◌∙◌, true, not, Option, none, some, if◌then◌else◌, Text, Bool-cases, inl, inr,
  if_elim,
}
use ops_ipapps.Feature.{FeatureStatus, disable, enable, udp_bcast_forwarder}
use ops_ipapps.Feature.Laws.{IsBitmap}
use ops_ipapps.Global.{GlobalConfig, SystemRow, true_text, when_true, process_globalconfig_update}
use ops_ipapps.Global.Columns.{bitmap, status}
use ops_ipapps.Global.Laws.{process_globalconfig_update-Follows}
use ops_ipapps.Cli.{
  Answer, Ovsdb, IsAtomic, committed, cmd_success, cmd_ovsdb_failure, udp_bcast_fwd_enabled, Smap,
  IsSmap, failed, finish_txn,
}
use ops_ipapps.Cli.RelayConfig.{false_text, status_text}
use ops_ipapps.Cli.Outcomes.{done, finish_txn_lem}

module _ {M : Type 0} (smap : Smap M) where
  abbrev global_row : Ovsdb (Option M) → Text → Option M → Answer (Option M)
  global_row o value none = failed none
  global_row o value (some column) =
      finish_txn o (some column) (some (smap.replace column udp_bcast_fwd_enabled value))

  -- The database is the System row's other_config column, `none` without a row.
  unfoldable pub udpfwd_globalconfig : Ovsdb (Option M) → Text → Option M → Answer (Option M)
  udpfwd_globalconfig o value row = if not o.started then failed row else global_row o value row

  unfoldable pub cli_udp_bcast_fwd_enable : Ovsdb (Option M) → Option M → Answer (Option M)
  cli_udp_bcast_fwd_enable o = udpfwd_globalconfig o true_text

  unfoldable pub cli_udp_bcast_fwd_disable : Ovsdb (Option M) → Option M → Answer (Option M)
  cli_udp_bcast_fwd_disable o = udpfwd_globalconfig o false_text

  -- A System row as the daemon sees it after a change of its other_config column.
  abbrev pub other_row : M → SystemRow → SystemRow
  other_row column row = record row {
    row_modified = true;
    other_config_modified = true;
    udp_bcast_fwd_enabled = smap.get column udp_bcast_fwd_enabled;
  }

  status_text-when_true : (s : FeatureStatus) → when_true (some (status_text s)) ≡ s
  status_text-when_true enable = refl
  status_text-when_true disable = refl

  -- The daemon's forwarder has a status once it has read the column that an answer left.
  abbrev pub SetsForwarder : FeatureStatus → SystemRow → GlobalConfig → Answer (Option M) → Type 0
  SetsForwarder s row g a =
      (new : M) × (a.db ≡ some new)
      × (status (process_globalconfig_update (some (other_row new row)) g) udp_bcast_forwarder ≡ s)

  replaced-status :
      (s : FeatureStatus) (column : M) (row : SystemRow) (g : GlobalConfig)
      → IsSmap smap
      → IsBitmap (bitmap g)
      → let new = smap.replace column udp_bcast_fwd_enabled (status_text s) in
        status (process_globalconfig_update (some (other_row new row)) g) udp_bcast_forwarder ≡ s
  replaced-status s column row g laws b =
      let new = smap.replace column udp_bcast_fwd_enabled (status_text s) in
      let f = process_globalconfig_update-Follows (other_row new row) g b refl in
      f.udp
      ∙ ap when_true
          (laws.get-replace column udp_bcast_fwd_enabled udp_bcast_fwd_enabled (status_text s))
      ∙ status_text-when_true s

  finish_txn-SetsForwarder :
      (o : Ovsdb (Option M)) (s : FeatureStatus) (column : M) (row : SystemRow) (g : GlobalConfig)
      → IsSmap smap
      → IsAtomic o
      → IsBitmap (bitmap g)
      → let a = global_row o (status_text s) (some column) in
        a.code ≡ cmd_success → SetsForwarder s row g a
  finish_txn-SetsForwarder o s column row g laws atomic b =
      let new = smap.replace column udp_bcast_fwd_enabled (status_text s) in
      rw (finish_txn_lem o (some column) (some new) atomic) (
        if_elim (λ (a : Answer (Option M)). a.code ≡ cmd_success → SetsForwarder s row g a)
          (committed (o.finish (some column) (some new)).0) (done (some new)) (failed (some column))
          (λ _ _. (new, refl, replaced-status s column row g laws b)) (λ _ bad. cc))

  -- When "ip udp-bcast-forward", which writes "true", or its negation, which writes "false", reports
  -- success, the database holds a column that makes the daemon turn its forwarder on, or off.
  pub udpfwd_globalconfig-SetsForwarder :
      (o : Ovsdb (Option M)) (s : FeatureStatus) (column : Option M) (row : SystemRow)
      (g : GlobalConfig)
      → IsSmap smap
      → IsAtomic o
      → IsBitmap (bitmap g)
      → (udpfwd_globalconfig o (status_text s) column).code ≡ cmd_success
      → SetsForwarder s row g (udpfwd_globalconfig o (status_text s) column)
  unfolding udpfwd_globalconfig
  udpfwd_globalconfig-SetsForwarder o s none row g laws atomic b ok = elim (Bool-cases o.started) [
    | inl started ↦ let bad : cmd_ovsdb_failure ≡ cmd_success = simp started at ok in cc
    | inr stopped ↦ let bad : cmd_ovsdb_failure ≡ cmd_success = simp stopped at ok in cc
  ]
  udpfwd_globalconfig-SetsForwarder o s (some column) row g laws atomic b ok =
      elim (Bool-cases o.started) [
        | inl started ↦
            simp started
              (finish_txn-SetsForwarder o s column row g laws atomic b (simp started at ok))
        | inr stopped ↦ let bad : cmd_ovsdb_failure ≡ cmd_success = simp stopped at ok in cc
      ]
