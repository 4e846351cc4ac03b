-- ===== src/Cli/ServerConfig/Effect.antt =====
-- The addresses of an interface after a command, and the rows of the other interfaces.
use ops_ipapps.Base.{
  ◌≡◌, refl, sym, ◌∙◌, Bool, true, not, ◌&&◌, Option, none, some, List, [], ◌∷◌, ◌++◌, ◌==◌,
  if◌then◌else◌, length, Text, arith,
}
use ops_ipapps.Cli.Servers.{
  Row, Db, Session, Port, port_lookup, named, without, first_row, instead, change_row,
}
use ops_ipapps.Cli.ServerConfig.{Kind}
use ops_ipapps.Cli.ServerConfig.Totals.{contains, first_row-test}
use ops_ipapps.Cli.ServerConfig.Updates.{
  with_address, without_address, Written, inserted, added, deleted, removed,
  udpfwd_setcommoncolumn-row, udpfwd_setcommoncolumn-named,
}
use ops_ipapps.Cli.ServerConfig.RoundTrip.{IsKind}
use ops_ipapps.Cli.ServerConfig.Undone.{first_row-change_row, first_row-append}

pub only_one :
    (address : Text) (servers : List Text) (stays : Bool)
    → contains address servers ≡ true
    → ((length servers == 1) && stays) ≡ true
    → without address servers ≡ []
only_one address [] stays c one = cc
only_one address (server ∷ []) stays c one = ground arith
only_one address (server ∷ other ∷ servers) stays c one = ground arith

module _ {E : Type 0} where
  abbrev servers_in : Option (Row E) → List Text
  servers_in none = []
  servers_in (some row) = row.servers

  -- The addresses of the row that a command is about.
  abbrev pub addresses : Kind E → List (Row E) → List Text
  addresses k rows = servers_in (first_row k.mine rows)

  -- The rows of the interfaces of every other name.
  abbrev pub rows_of_others : Text → List (Row E) → List (Row E)
  rows_of_others name [] = []
  rows_of_others name (row ∷ rows) =
      let rest = rows_of_others name rows in if named name row.port then rest else row ∷ rest

  abbrev IsOf : Text → Option (Row E) → Type 0
  IsOf name none = Unit
  IsOf name (some row) = named name row.port ≡ true

  rows_of_others-instead :
      (name : Text) (new : Option (Row E)) (rows : List (Row E))
      → IsOf name new
      → rows_of_others name (instead new rows) ≡ rows_of_others name rows
  rows_of_others-instead name none rows n = refl
  rows_of_others-instead name (some row) rows n = simp n refl

  rows_of_others-change_row :
      (name : Text) (test : Row E → Bool) (new : Option (Row E)) (rows : List (Row E)) (row : Row E)
      → first_row test rows ≡ some row
      → named name row.port ≡ true
      → IsOf name new
      → rows_of_others name (change_row test new rows) ≡ rows_of_others name rows
  rows_of_others-change_row name test new [] row e n m = refl
  rows_of_others-change_row name test new (r ∷ rows) row e n m = ground (
    arith,
    rows_of_others-instead name new rows m,
    rows_of_others-change_row name test new rows row,
  )

  rows_of_others-append :
      (name : Text) (rows : List (Row E)) (new : Row E)
      → named name new.port ≡ true
      → rows_of_others name (rows ++ new ∷ []) ≡ rows_of_others name rows
  rows_of_others-append name [] new n = simp n refl
  rows_of_others-append name (r ∷ rows) new n =
      ground (arith, rows_of_others-append name rows new n)

  -- The addresses and the table that a command leaves.
  pub record Effect (k : Kind E) (t : Session) (address : Text) (set : Bool)
      (rows new : List (Row E)) : Type 0 where
    pub was : contains address (addresses k rows) ≡ not set
    pub now :
        addresses k new
        ≡ (if set then addresses k rows ++ address ∷ [] else without address (addresses k rows))
    pub others : rows_of_others t.index new ≡ rows_of_others t.index rows

  pub Written-Effect :
      (k : Kind E) (t : Session) (address : Text) (set : Bool) (db : Db E) (p : Port)
      (rows : List (Row E))
      → IsKind k t
      → first_row k.mine (change_row k.mine none db.rows) ≡ none
      → port_lookup t.index db.ports ≡ some p
      → Written k t address db set rows
      → Effect k t address set db.rows rows
  Written-Effect k t address _ db p _ kind one port (inserted row absent e) =
      let new : Row E = record (with_address k address db row) { extra = k.fresh } in
      let (named_port, named_vrf) = udpfwd_setcommoncolumn-named k t db p row port e in
      let (_, empty) = udpfwd_setcommoncolumn-row k t db row e in
      let takes = kind.takes (with_address k address db row) named_port named_vrf in
      record {
        was = rw absent refl;
        now = rw (absent, first_row-append k.mine new db.rows absent takes, empty) refl;
        others = rows_of_others-append t.index db.rows new named_port;
      }
  Written-Effect k t address _ db p _ kind one port (added row e c) =
      let new : Row E = with_address k address db row in
      let mine = first_row-test k.mine db.rows row e in
      let own = kind.own row mine in
      let takes = kind.mine_free row new.servers ∙ mine in
      record {
        was = rw e c;
        now = rw (e, first_row-change_row k.mine row new db.rows e takes) refl;
        others = rows_of_others-change_row t.index k.mine (some new) db.rows row e own own;
      }
  Written-Effect k t address _ db p _ kind one port (deleted row e c last) =
      let mine = first_row-test k.mine db.rows row e in
      record {
        was = rw e c;
        now = rw (e, one) (sym (only_one address row.servers _ c last));
        others = rows_of_others-change_row t.index k.mine none db.rows row e (kind.own row mine) tt;
      }
  Written-Effect k t address _ db p _ kind one port (removed row e c more) =
      let new : Row E = without_address k address db row in
      let mine = first_row-test k.mine db.rows row e in
      let own = kind.own row mine in
      let takes = kind.mine_free row new.servers ∙ mine in
      record {
        was = rw e c;
        now = rw (e, first_row-change_row k.mine row new db.rows e takes) refl;
        others = rows_of_others-change_row t.index k.mine (some new) db.rows row e own own;
      }
