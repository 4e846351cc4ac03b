-- ===== src/Cli/ServerConfig/Safe.antt =====
-- No interface gets more than the maximum of server addresses, and no array is left.
use ops_ipapps.Base.{
  ◌<◌, ◌≡◌, ◌⊎◌, refl, Bool, true, false, not, ◌&&◌, Option, none, some, List, ◌==◌, length, Text,
  arith, Bool-cases, inl, inr, if_elim,
}
use ops_ipapps.Cli.{entry_exists, Answer, Ovsdb, IsAtomic, failed, told}
use ops_ipapps.Cli.Outcomes.{done, finish_txn_lem}
use ops_ipapps.Cli.Servers.{
  Row, Db, Session, max_addresses, udpfwd_setcommoncolumn, server_address_maxcount_reached,
  first_row, change_row,
}
use ops_ipapps.Cli.ServerConfig.{
  Kind, Step, gives_up, writes, matches, blank_row, add_server, set_server, unset_server, end_step,
  next_step, server_config,
}
use ops_ipapps.Cli.ServerConfig.Updates.{Written, deleted}
use ops_ipapps.Cli.ServerConfig.Totals.{
  contains, find_udpfwd_server_ip_lem, total, first_row-weight, first_row-test,
  server_address_maxcount_reached-total,
}
use ops_ipapps.Cli.ServerConfig.Bounds.{
  Says, IsBounded, IsOwn, SafeStep, Safe, delete-Safe, remove-Safe, add-Safe, insert-Safe,
}

module _ {E : Type 0} where
  module _ (k : Kind E) (t : Session) (own : IsOwn k t) (address : Text) (db : Db E)
      (bound : IsBounded db.rows) where
    -- The search for the address ends in the array of the row.
    matches-contains :
        (row : Row E)
        → first_row k.mine db.rows ≡ some row
        → matches address (some row) ≡ some (contains address row.servers)
    matches-contains row e =
        let mine = own row (first_row-test k.mine db.rows row e) in
        let light = first_row-weight t.index k.mine db.rows row e in
        let all = bound t.index in find_udpfwd_server_ip_lem address row.servers (ground arith)

    add_server-Safe :
        (row : Option (Row E)) (matched : Bool)
        → first_row k.mine db.rows ≡ row
        → matches address row ≡ some matched
        → total t.index db.rows < max_addresses
        → Safe k t address db true (add_server k t address db row matched)
    add_server-Safe none matched e m below = elim (Bool-cases t.inserts) [
      | inl i ↦
          let (step, runs, safe) =
            insert-Safe k t own address db bound (udpfwd_setcommoncolumn t db (blank_row k)) refl
              below e in
          (step, simp i runs, safe)
      | inr i ↦ (gives_up (failed db), simp i refl, (refl, inl refl))
    ]
    add_server-Safe (some row) false e m below =
        let absent : contains address row.servers ≡ false = cc (matches-contains row e) in
        add-Safe k t own address db bound row e below absent
    add_server-Safe (some row) true e m below =
        (gives_up (told entry_exists db), refl, (refl, inr (λ x. cc)))

    set_server-Safe :
        (row : Option (Row E)) (matched : Bool)
        → first_row k.mine db.rows ≡ row
        → matches address row ≡ some matched
        → Safe k t address db true (set_server k t address db row matched)
    set_server-Safe row matched e found =
        elim (Bool-cases (server_address_maxcount_reached t.index db.rows)) [
          | inl m ↦ (gives_up (told k.full db), simp m refl, (refl, inr (λ x. cc)))
          | inr m ↦
              let (step, runs, safe) =
                add_server-Safe row matched e found
                  (server_address_maxcount_reached-total t.index db.rows m) in
              (step, simp m runs, safe)
        ]

    unset_server-Safe :
        (row : Option (Row E)) (matched : Bool)
        → first_row k.mine db.rows ≡ row
        → matches address row ≡ some matched
        → Safe k t address db false (unset_server k address db row matched)
    unset_server-Safe none matched e m = (gives_up (told k.no_row db), refl, (refl, inr (λ x. cc)))
    unset_server-Safe (some row) false e m =
        (gives_up (told k.no_match db), refl, (refl, inr (λ x. cc)))
    unset_server-Safe (some row) true e m =
        elim (Bool-cases ((length row.servers == 1) && not (k.stays row))) [
          | inl last ↦ (
            writes (change_row k.mine none db.rows),
            simp last refl,
            (
              delete-Safe k t own address db bound row e,
              deleted row e (cc (matches-contains row e)) last,
            ),
          )
          | inr more ↦
              let here : contains address row.servers ≡ true = cc (matches-contains row e) in
              let (step, runs, safe) = remove-Safe k t own address db bound row e here more in
              (step, simp more runs, safe)
        ]

    matches-Safe :
        (row : Option (Row E))
        → first_row k.mine db.rows ≡ row
        → (matched : Bool) × (matches address row ≡ some matched)
    matches-Safe none e = (false, refl)
    matches-Safe (some row) e = (contains address row.servers, matches-contains row e)

    pub next_step-Safe : (set : Bool) → Safe k t address db set (next_step k t address set db)
    unfolding next_step
    next_step-Safe true =
        let (matched, m) = matches-Safe (first_row k.mine db.rows) refl in
        rw m (set_server-Safe (first_row k.mine db.rows) matched refl m)
    next_step-Safe false =
        let (matched, m) = matches-Safe (first_row k.mine db.rows) refl in
        rw m (unset_server-Safe (first_row k.mine db.rows) matched refl m)

  -- A command that said why it did nothing, or silently wrote a table that is bounded.
  abbrev pub Outcome : Kind E → Session → Text → Bool → Db E → Answer (Db E) → Type 0
  Outcome k t address set db a =
      ((a.db ≡ db) × Says a)
      ⊎ ((rows : List (Row E)) × Written k t address db set rows
          × IsBounded rows
          × (a ≡ done (record db { rows = rows })))

  end_step-Outcome :
      (o : Ovsdb (Db E)) (k : Kind E) (t : Session) (address : Text) (set : Bool) (db : Db E)
      (step : Step E)
      → IsAtomic o
      → SafeStep k t address db set step
      → Outcome k t address set db (end_step o db step)
  end_step-Outcome o k t address set db (gives_up a) atomic safe = inl safe
  end_step-Outcome o k t address set db (writes rows) atomic (bounded, written) =
      rw (finish_txn_lem o db (record db { rows = rows }) atomic) (
        if_elim (Outcome k t address set db) _ _ _ (λ _. inr (rows, written, bounded, refl))
          (λ _. inl (refl, inl refl)))

  pub server_config-Outcome :
      (o : Ovsdb (Db E)) (k : Kind E) (t : Session) (address : Text) (set : Bool) (db : Db E)
      → IsAtomic o
      → IsOwn k t
      → IsBounded db.rows
      → (a : Answer (Db E)) × (server_config o k t address set db ≡ some a)
        × Outcome k t address set db a
  unfolding server_config
  server_config-Outcome o k t address set db atomic own bound = elim (Bool-cases o.started) [
    | inl s ↦
        let (step, runs, safe) = next_step-Safe k t own address db bound set in
        (
          end_step o db step,
          simp (s, runs) refl,
          end_step-Outcome o k t address set db step atomic safe,
        )
    | inr s ↦ (failed db, simp s refl, inl (refl, inl refl))
  ]

  pub Outcome-IsBounded :
      (k : Kind E) (t : Session) (address : Text) (set : Bool) (db : Db E) (a : Answer (Db E))
      → IsBounded db.rows
      → Outcome k t address set db a
      → IsBounded a.db.rows
  Outcome-IsBounded k t address set db a bound (inl (same, _)) = rw same bound
  Outcome-IsBounded k t address set db a bound (inr (rows, written, bounded, same)) =
      rw same bounded
