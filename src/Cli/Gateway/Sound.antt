-- ===== src/Cli/Gateway/Sound.antt =====
-- The gateway commands keep the DHCP_Relay table sound.
use ops_ipapps.Base.{
  ◌≡◌, refl, subst, Bool, true, false, Option, none, some, List, [], ◌∷◌, Text, arith, Option-cases,
  if_elim, inl, inr,
}
use ops_ipapps.Cli.{
  bootp_gateway, told, gateway_not_configured, address_not_configured, Smap, IsSmap,
}
use ops_ipapps.Cli.Servers.{Row, Db, Session, Port, port_lookup, first_row, change_row}
use ops_ipapps.Cli.ServerConfig.{Step, gives_up, writes, has_text, dhcp_relay_mine}
use ops_ipapps.Cli.ServerConfig.Totals.{weight, total-append, total-change_row}
use ops_ipapps.Cli.ServerConfig.Bounds.{IsBounded}
use ops_ipapps.Cli.ServerConfig.RoundTrip.{HasReason, true-HasReason}
use ops_ipapps.Cli.Gateway.{
  with_gateway, port_has, put_gateway, set_gateway, is_gateway, drop_gateway, unset_gateway,
  insert_gateway, gateway_step,
}
use ops_ipapps.Cli.Gateway.Tidy.{AllRows-append, change_row-AllRows}
use ops_ipapps.Cli.Gateway.Helpers.{Tidy, IsTidy, Tidy-row}

module _ {M : Type 0} (smap : Smap M) where
  -- Every row has a use, and every interface is within the maximum.
  abbrev pub IsTable : List (Row M) → Type 0
  IsTable rows = IsTidy smap rows × IsBounded rows

  abbrev pub TableStep : Db M → Step M → Type 0
  TableStep db (gives_up a) = a.db ≡ db
  TableStep db (writes rows) = IsTable rows

  -- Whatever step a run gives.
  abbrev pub TableRun : Db M → Option (Step M) → Type 0
  TableRun db run = (step : Step M) → run ≡ some step → TableStep db step

  some-TableRun : (db : Db M) (step : Step M) → TableStep db step → TableRun db (some step)
  some-TableRun db step h other e = let same : step ≡ other = cc in subst (TableStep db) same h

  none-TableRun : (db : Db M) → TableRun db none
  none-TableRun db other e = cc

  module _ (laws : IsSmap smap) (t : Session) (gateway : Text) (db : Db M)
      (h : IsTable db.rows) where
    has_gateway :
        (row : Row M)
        → has_text (smap.get (with_gateway smap gateway row).extra bootp_gateway) ≡ true
    has_gateway row = rw (laws.get-replace row.extra bootp_gateway bootp_gateway gateway) refl

    -- A row changed in its other column only.
    change-IsTable :
        (row : Row M) (extra : M)
        → first_row (dhcp_relay_mine t) db.rows ≡ some row
        → HasReason row.servers (has_text (smap.get extra bootp_gateway))
        → IsTable (change_row (dhcp_relay_mine t) (some (record row { extra = extra })) db.rows)
    change-IsTable row extra e useful =
        let (_, distinct) = Tidy-row smap t db.rows row h.0 e in
        (
          change_row-AllRows (Tidy smap) (dhcp_relay_mine t) (some (record row { extra = extra }))
              db.rows (useful, distinct) h.0,
          λ name.
              let change =
                total-change_row name (dhcp_relay_mine t) (some (record row { extra = extra }))
                  db.rows row e in
              let old = h.1 name in omega arith,
        )

    delete-IsTable :
        (row : Row M)
        → first_row (dhcp_relay_mine t) db.rows ≡ some row
        → IsTable (change_row (dhcp_relay_mine t) none db.rows)
    delete-IsTable row e = (
      change_row-AllRows (Tidy smap) (dhcp_relay_mine t) none db.rows tt h.0,
      λ name.
          let change = total-change_row name (dhcp_relay_mine t) none db.rows row e in
          let old = h.1 name in omega arith,
    )

    insert-TableStep :
        (p : Port) (vrf : Option Text) → TableStep db (insert_gateway smap gateway db p vrf)
    insert-TableStep p none = refl
    insert-TableStep p (some vrf) =
        let fresh : Row M = record {
          port = some p.name;
          vrf = some vrf;
          servers = [];
          extra = smap.empty;
        } in
        (
          AllRows-append (Tidy smap) db.rows (with_gateway smap gateway fresh) h.0
              (has_gateway fresh, tt),
          λ name.
              let sum = total-append name db.rows (with_gateway smap gateway fresh) in
              let nothing : weight name (with_gateway smap gateway fresh) ≡ 0 = ground arith in
              let old = h.1 name in omega arith,
        )

    put_gateway-TableRun :
        (p : Option Port) (row : Option (Row M))
        → first_row (dhcp_relay_mine t) db.rows ≡ row
        → TableRun db (put_gateway smap t gateway db p row)
    put_gateway-TableRun p (some row) e =
        some-TableRun db _ (change-IsTable row _ e (true-HasReason row.servers _ (has_gateway row)))
    put_gateway-TableRun none none e = none-TableRun db
    put_gateway-TableRun (some p) none e =
        if_elim (TableRun db) _ _ _ (λ _. some-TableRun db _ (insert-TableStep p _))
          (λ _. none-TableRun db)

    drop_gateway-TableStep :
        (row : Row M) (servers : List Text)
        → first_row (dhcp_relay_mine t) db.rows ≡ some row
        → row.servers ≡ servers
        → TableStep db (drop_gateway smap t db row servers)
    drop_gateway-TableStep row [] e s = delete-IsTable row e
    drop_gateway-TableStep row (x ∷ xs) e s = change-IsTable row _ e (rw s tt)

    unset_gateway-TableStep :
        (row : Option (Row M))
        → first_row (dhcp_relay_mine t) db.rows ≡ row
        → TableStep db (unset_gateway smap t gateway db row)
    unset_gateway-TableStep none e = refl
    unset_gateway-TableStep (some row) e =
        if_elim (TableStep db) (is_gateway smap gateway (smap.get row.extra bootp_gateway))
          (drop_gateway smap t db row row.servers) (gives_up (told gateway_not_configured db))
          (λ _. drop_gateway-TableStep row row.servers e refl) (λ _. refl)

    set_gateway-TableRun :
        (row : Option (Row M))
        → first_row (dhcp_relay_mine t) db.rows ≡ row
        → TableRun db (set_gateway smap t gateway db row)
    set_gateway-TableRun row e =
        elim (Option-cases (port_has gateway (port_lookup t.index db.ports))) [
          | inl fault ↦ simp fault (none-TableRun db)
          | inr (matched, is) ↦ simp is (
              if_elim (TableRun db) matched
                (put_gateway smap t gateway db (port_lookup t.index db.ports) row)
                (some (gives_up (told address_not_configured db)))
                (λ _. put_gateway-TableRun (port_lookup t.index db.ports) row e)
                (λ _. some-TableRun db (gives_up (told address_not_configured db)) refl))
        ]

    pub gateway_step-TableRun : (set : Bool) → TableRun db (gateway_step smap t gateway set db)
    unfolding gateway_step
    gateway_step-TableRun true = set_gateway-TableRun (first_row (dhcp_relay_mine t) db.rows) refl
    gateway_step-TableRun false =
        some-TableRun db _ (unset_gateway-TableStep (first_row (dhcp_relay_mine t) db.rows) refl)
