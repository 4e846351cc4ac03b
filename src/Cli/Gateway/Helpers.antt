-- ===== src/Cli/Gateway/Helpers.antt =====
-- The rows of the DHCP_Relay table have a use, and the helper-address commands keep it so.
use ops_ipapps.Base.{
  ◌≡◌, refl, subst, Bool, true, false, not, ◌&&◌, ◌==◌, none, some, List, length, Text, arith,
}
use ops_ipapps.Cli.{bootp_gateway, Smap}
use ops_ipapps.Cli.Servers.{Row, Db, Session, first_row, without}
use ops_ipapps.Cli.ServerConfig.{has_text, helper_kind, dhcp_relay_mine}
use ops_ipapps.Cli.ServerConfig.Totals.{contains}
use ops_ipapps.Cli.ServerConfig.Updates.{
  with_address, without_address, Written, inserted, added, deleted, removed,
  udpfwd_setcommoncolumn-row,
}
use ops_ipapps.Cli.ServerConfig.RoundTrip.{
  HasReason, true-HasReason, append-HasReason, full-HasReason,
}
use ops_ipapps.Cli.Gateway.Tidy.{
  AllRows, IfRow, AllRows-append, first_row-AllRows, change_row-AllRows, Distinct, Distinct-append,
  Distinct-without, length-without_one,
}

-- An address goes, but not the last one of a row that then has no reason to stay.
left-HasReason :
    (address : Text) (servers : List Text) (stays : Bool)
    → Distinct servers
    → contains address servers ≡ true
    → ((length servers == 1) && not stays) ≡ false
    → HasReason (without address servers) stays
left-HasReason address servers true distinct c more =
    true-HasReason (without address servers) true refl
left-HasReason address servers false distinct c more =
    let one = length-without_one address servers distinct c in
    full-HasReason (without address servers) false (ground arith)

module _ {M : Type 0} (smap : Smap M) where
  -- A row without servers has a gateway, and the servers of a row are distinct.
  abbrev pub Tidy : Row M → Type 0
  Tidy row =
      HasReason row.servers (has_text (smap.get row.extra bootp_gateway)) × Distinct row.servers

  abbrev pub IsTidy : List (Row M) → Type 0
  IsTidy rows = AllRows Tidy rows

  pub Tidy-row :
      (t : Session) (rows : List (Row M)) (row : Row M)
      → IsTidy rows
      → first_row (dhcp_relay_mine t) rows ≡ some row
      → Tidy row
  Tidy-row t rows row h e = subst (IfRow Tidy) e (first_row-AllRows Tidy (dhcp_relay_mine t) rows h)

  pub Written-IsTidy :
      (t : Session) (address : Text) (set : Bool) (db : Db M) (rows : List (Row M))
      → IsTidy db.rows
      → Written (helper_kind smap t) t address db set rows
      → IsTidy rows
  Written-IsTidy t address _ db _ h (inserted row absent e) =
      let (_, empty) = udpfwd_setcommoncolumn-row (helper_kind smap t) t db row e in
      AllRows-append Tidy db.rows _ h (
        append-HasReason address row.servers _,
        Distinct-append address row.servers (rw empty tt) (rw empty refl),
      )
  Written-IsTidy t address _ db _ h (added row e c) =
      let (_, distinct) = Tidy-row t db.rows row h e in
      change_row-AllRows Tidy (dhcp_relay_mine t)
        (some (with_address (helper_kind smap t) address db row)) db.rows
        (append-HasReason address row.servers _, Distinct-append address row.servers distinct c) h
  Written-IsTidy t address _ db _ h (deleted row e c last) =
      change_row-AllRows Tidy (dhcp_relay_mine t) none db.rows tt h
  Written-IsTidy t address _ db _ h (removed row e c more) =
      let (_, distinct) = Tidy-row t db.rows row h e in
      change_row-AllRows Tidy (dhcp_relay_mine t)
        (some (without_address (helper_kind smap t) address db row)) db.rows
        (
          left-HasReason address row.servers (has_text (smap.get row.extra bootp_gateway)) distinct
              c more,
          Distinct-without address row.servers distinct,
        )
        h
