-- ===== src/Cli/ServerConfig/Bounds.antt =====
-- Each writing step of a server command keeps every interface within the maximum.
use ops_ipapps.Base.{
  ◌+◌, ◌≤◌, ◌<◌, ◌≡◌, ◌≢◌, ◌⊎◌, refl, sym, ap, ◌∙◌, Bool, true, false, not, ◌&&◌, Option, none,
  some, List, [], ◌∷◌, ◌++◌, ◌==◌, if◌then◌else◌, length, length-append, Text, arith, Bool-cases,
  inl, inr,
}
use ops_ipapps.Cli.{cmd_ovsdb_failure, Answer}
use ops_ipapps.Cli.Servers.{
  Row, Db, Session, named, max_addresses, udpfwd_setcommoncolumn, first_row, change_row,
}
use ops_ipapps.Cli.ServerConfig.{
  Kind, Step, gives_up, writes, blank_row, insert_row, update_servers,
}
use ops_ipapps.Cli.ServerConfig.Updates.{
  with_address, without_address, Written, inserted, added, removed, update_servers-add,
  update_servers-delete, insert_row-add, udpfwd_setcommoncolumn-row,
}
use ops_ipapps.Cli.ServerConfig.Totals.{
  same_text→eq, contains, length-without-contains, weight, total, total-append, total-change_row,
  first_row-test,
}

-- On every interface there are at most eight server addresses.
abbrev pub IsBounded : {E : Type 0} → List (Row E) → Type 0
IsBounded rows = (name : Text) → total name rows ≤ max_addresses

-- A command looks for a row of its own interface.
abbrev pub IsOwn : {E : Type 0} → Kind E → Session → Type 0
IsOwn {E} k t = (row : Row E) → k.mine row ≡ true → named t.index row.port ≡ true

pub named_same :
    (a b : Text) (port : Option Text) → named a port ≡ true → named b port ≡ true → a ≡ b
named_same a b none h k = cc
named_same a b (some p) h k = sym (same_text→eq p a h) ∙ same_text→eq p b k

module _ {E : Type 0} where
  -- An answer that is no silent success.
  abbrev pub Says : Answer (Db E) → Type 0
  Says a = (a.code ≡ cmd_ovsdb_failure) ⊎ (a.said ≢ none)

  -- A step that gives up leaves the database, and one that writes is bounded.
  abbrev pub SafeStep : Kind E → Session → Text → Db E → Bool → Step E → Type 0
  SafeStep k t address db set (gives_up a) = (a.db ≡ db) × Says a
  SafeStep k t address db set (writes rows) = IsBounded rows × Written k t address db set rows

  abbrev pub Safe : Kind E → Session → Text → Db E → Bool → Option (Step E) → Type 0
  Safe k t address db set run =
      (step : Step E) × (run ≡ some step) × SafeStep k t address db set step

  -- One more address for a row of an interface that is below the maximum.
  one_more :
      (t : Session) (rows new : List (Row E)) (name : Text) (port : Option Text)
      → IsBounded rows
      → total t.index rows < max_addresses
      → (named name port ≡ true → named t.index port ≡ true)
      → total name new ≤ total name rows + (if named name port then 1 else 0)
      → total name new ≤ max_addresses
  one_more t rows new name port b below own grows = elim (Bool-cases (named name port)) [
    | inl h ↦
        let here : total name rows ≡ total t.index rows =
          ap (λ n. total n rows) (named_same name t.index port h (own h)) in
        let one : total name new ≤ total name rows + 1 = simp h at grows in omega arith
    | inr h ↦
        let same : total name new ≤ total name rows + 0 = simp h at grows in
        let old = b name in omega arith
  ]

  module _ (k : Kind E) (t : Session) (own : IsOwn k t) (address : Text) (db : Db E)
      (bound : IsBounded db.rows) where
    pub delete-Safe :
        (row : Row E)
        → first_row k.mine db.rows ≡ some row
        → IsBounded (change_row k.mine none db.rows)
    delete-Safe row e name =
        let change = total-change_row name k.mine none db.rows row e in
        let old = bound name in omega arith

    lighter :
        (row : Row E) (name : Text)
        → contains address row.servers ≡ true
        → weight name (without_address k address db row) ≤ weight name row
    lighter row name c = let fewer = length-without-contains address row.servers c in ground arith

    pub remove-Safe :
        (row : Row E)
        → first_row k.mine db.rows ≡ some row
        → contains address row.servers ≡ true
        → ((length row.servers == 1) && not (k.stays row)) ≡ false
        → Safe k t address db false (update_servers k false address db row)
    remove-Safe row e c more = (
      writes (change_row k.mine (some (without_address k address db row)) db.rows),
      update_servers-delete k address db row c,
      (
        λ name.
            let new = without_address k address db row in
            let change = total-change_row name k.mine (some new) db.rows row e in
            let less = lighter row name c in let old = bound name in omega arith,
        removed row e c more,
      ),
    )

    heavier :
        (row : Row E) (name : Text)
        → weight name (with_address k address db row)
          ≡ weight name row + (if named name row.port then 1 else 0)
    heavier row name = let one = length-append row.servers (address ∷ []) in ground arith

    pub add-Safe :
        (row : Row E)
        → first_row k.mine db.rows ≡ some row
        → total t.index db.rows < max_addresses
        → contains address row.servers ≡ false
        → Safe k t address db true (update_servers k true address db row)
    add-Safe row e below c = (
      writes (change_row k.mine (some (with_address k address db row)) db.rows),
      update_servers-add k address db row,
      (
        λ name.
            let new = with_address k address db row in
            let change = total-change_row name k.mine (some new) db.rows row e in
            let more = heavier row name in
            one_more t db.rows (change_row k.mine (some new) db.rows) name row.port bound below
              (λ _. own row (first_row-test k.mine db.rows row e)) (omega arith),
        added row e c,
      ),
    )

    pub insert-Safe :
        (row : Option (Row E))
        → udpfwd_setcommoncolumn t db (blank_row k) ≡ row
        → total t.index db.rows < max_addresses
        → first_row k.mine db.rows ≡ none
        → Safe k t address db true (insert_row k address db row)
    insert-Safe none e below new = (_, refl, (refl, inl refl))
    insert-Safe (some row) e below absent =
        let new = record (with_address k address db row) { extra = k.fresh } in
        let (mine, empty) = udpfwd_setcommoncolumn-row k t db row e in
        (
          writes (db.rows ++ new ∷ []),
          insert_row-add k address db row,
          (
            λ name.
                let sum = total-append name db.rows new in
                let more = heavier row name in
                let none_yet : weight name row ≡ 0 = ground arith in
                one_more t db.rows (db.rows ++ new ∷ []) name row.port bound below (mine name)
                  (omega arith),
            inserted row absent e,
          ),
        )
