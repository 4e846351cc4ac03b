-- ===== src/Cli/ServerConfig/RoundTrip.antt =====
-- An address that is set and unset again leaves the table as it was.
use ops_ipapps.Base.{
  ◌<◌, ◌≡◌, refl, sym, ap, ◌∙◌, subst, Bool, true, false, not, ◌&&◌, none, some, List, [], ◌∷◌,
  ◌++◌, ◌==◌, length, length-append, Text, arith, inl, inr,
}
use ops_ipapps.Cli.{Answer, Ovsdb, IsAtomic, committed, cmd_success}
use ops_ipapps.Cli.Outcomes.{done, finish_txn_lem}
use ops_ipapps.Cli.Servers.{Row, Db, Session, Port, named, port_lookup, first_row, change_row}
use ops_ipapps.Cli.ServerConfig.{Kind, writes, next_step, server_config}
use ops_ipapps.Cli.ServerConfig.Totals.{
  contains, find_udpfwd_server_ip_lem, first_row-weight, first_row-test,
}
use ops_ipapps.Cli.ServerConfig.Updates.{
  with_address, without_address, update_servers-delete, Written, inserted, added,
  udpfwd_setcommoncolumn-row, udpfwd_setcommoncolumn-named,
}
use ops_ipapps.Cli.ServerConfig.Bounds.{IsBounded, IsOwn}
use ops_ipapps.Cli.ServerConfig.Safe.{Outcome, server_config-Outcome}
use ops_ipapps.Cli.ServerConfig.Undone.{
  contains-append, without-append, first_row-change_row, change_row-change_row, first_row-append,
  change_row-append,
}

-- No servers, and yet a reason for the row to stay; or servers.
abbrev pub HasReason : List Text → Bool → Type 0
HasReason [] stays = stays ≡ true
HasReason (server ∷ servers) stays = Unit

pub true-HasReason : (servers : List Text) (stays : Bool) → stays ≡ true → HasReason servers stays
true-HasReason [] stays h = h
true-HasReason (server ∷ servers) stays h = tt

pub append-HasReason :
    (address : Text) (servers : List Text) (stays : Bool)
    → HasReason (servers ++ address ∷ []) stays
append-HasReason address [] stays = tt
append-HasReason address (server ∷ servers) stays = tt

pub full-HasReason :
    (servers : List Text) (stays : Bool) → 0 < length servers → HasReason servers stays
full-HasReason [] stays h = ground arith
full-HasReason (server ∷ servers) stays h = tt

-- An added address is the last one only in a row that was empty.
not_last :
    (address : Text) (servers : List Text) (stays : Bool)
    → HasReason servers stays
    → ((length (servers ++ address ∷ []) == 1) && not stays) ≡ false
not_last address [] stays h = rw h refl
not_last address (server ∷ servers) stays h =
    let two = length-append servers (address ∷ []) in ground arith

module _ {E : Type 0} where
  -- What the two kinds of command have in common: they look for a row by its interface and not by
  -- its servers, they find the row that they insert, and that one goes with its last server.
  pub record IsKind (k : Kind E) (t : Session) : Type 0 where
    pub own : IsOwn k t
    pub mine_free :
        (row : Row E) (servers : List Text) → k.mine (record row { servers = servers }) ≡ k.mine row
    pub stays_free :
        (row : Row E) (servers : List Text)
        → k.stays (record row { servers = servers }) ≡ k.stays row
    pub takes :
        (row : Row E)
        → named t.index row.port ≡ true
        → named t.default_vrf row.vrf ≡ true
        → k.mine (record row { extra = k.fresh }) ≡ true
    pub goes : (row : Row E) → k.stays (record row { extra = k.fresh }) ≡ false

  -- A row without servers has a reason to stay.
  abbrev pub IsUseful : Kind E → List (Row E) → Type 0
  IsUseful k [] = Unit
  IsUseful k (row ∷ rows) = HasReason row.servers (k.stays row) × IsUseful k rows

  first_row-IsUseful :
      (k : Kind E) (rows : List (Row E)) (row : Row E)
      → IsUseful k rows
      → first_row k.mine rows ≡ some row
      → HasReason row.servers (k.stays row)
  first_row-IsUseful k [] row u e = cc
  first_row-IsUseful k (r ∷ rows) row u e = ground (arith, first_row-IsUseful k rows row)

  module _ (k : Kind E) (t : Session) (address : Text) (db : Db E) (row : Row E)
      (e : first_row k.mine db.rows ≡ some row) (c : contains address row.servers ≡ true)
      (short : length row.servers < 128) where
    unset-last :
        ((length row.servers == 1) && not (k.stays row)) ≡ true
        → next_step k t address false db ≡ some (writes (change_row k.mine none db.rows))
    unfolding next_step
    unset-last last = rw (e, find_udpfwd_server_ip_lem address row.servers short, c, last) refl

    unset-more :
        ((length row.servers == 1) && not (k.stays row)) ≡ false
        → next_step k t address false db
          ≡ some (writes (change_row k.mine (some (without_address k address db row)) db.rows))
    unfolding next_step
    unset-more more =
        rw (e, find_udpfwd_server_ip_lem address row.servers short, c, more)
          (update_servers-delete k address db row c)

  -- A transaction that is taken.
  commits :
      (o : Ovsdb (Db E)) (k : Kind E) (t : Session) (address : Text) (set : Bool) (db : Db E)
      (rows : List (Row E))
      → o.started ≡ true
      → committed (o.finish db (record db { rows = rows })).0 ≡ true
      → IsAtomic o
      → next_step k t address set db ≡ some (writes rows)
      → server_config o k t address set db ≡ some (done (record db { rows = rows }))
  unfolding server_config
  commits o k t address set db rows s taken atomic step =
      simp (s, step, finish_txn_lem o db (record db { rows = rows }) atomic, taken) refl

  -- The row of the interface is in the bounds of an int8_t.
  short_row :
      (k : Kind E) (t : Session) (rows : List (Row E)) (row : Row E)
      → IsOwn k t
      → IsBounded rows
      → first_row k.mine rows ≡ some row
      → length row.servers < 128
  short_row k t rows row own bound e =
      let mine = own row (first_row-test k.mine rows row e) in
      let light = first_row-weight t.index k.mine rows row e in
      let all = bound t.index in ground arith

  undone :
      (k : Kind E) (t : Session) (address : Text) (db : Db E) (p : Port) (rows : List (Row E))
      → IsKind k t
      → IsUseful k db.rows
      → port_lookup t.index db.ports ≡ some p
      → IsBounded rows
      → Written k t address db true rows
      → next_step k t address false (record db { rows = rows }) ≡ some (writes db.rows)
  undone k t address db p _ kind useful port bound (inserted row absent e) =
      let new : Row E = record (with_address k address db row) { extra = k.fresh } in
      let (named_port, named_vrf) = udpfwd_setcommoncolumn-named k t db p row port e in
      let mine = kind.takes (with_address k address db row) named_port named_vrf in
      let found = first_row-append k.mine new db.rows absent mine in
      let alone : length new.servers ≡ 1 =
        let (_, empty) = udpfwd_setcommoncolumn-row k t db row e in ground arith in
      let gone = kind.goes (with_address k address db row) in
      unset-last k t address (record db { rows = db.rows ++ new ∷ [] }) new found
        (contains-append address row.servers)
        (short_row k t (db.rows ++ new ∷ []) new kind.own bound found) (ground arith)
      ∙ ap (λ rows. some (writes rows)) (change_row-append k.mine new db.rows absent mine)
  undone k t address db p _ kind useful port bound (added row e c) =
      let new : Row E = with_address k address db row in
      let mine = kind.mine_free row new.servers ∙ first_row-test k.mine db.rows row e in
      let found = first_row-change_row k.mine row new db.rows e mine in
      let stays : HasReason row.servers (k.stays new) =
        rw (kind.stays_free row new.servers) (first_row-IsUseful k db.rows row useful e) in
      let again : without_address k address db new ≡ row =
        ap (λ servers. record row { servers = servers }) (without-append address row.servers c) in
      unset-more k t address (record db { rows = change_row k.mine (some new) db.rows }) new found
        (contains-append address row.servers)
        (short_row k t (change_row k.mine (some new) db.rows) new kind.own bound found)
        (not_last address row.servers (k.stays new) stays)
      ∙ ap (λ r. some (writes (change_row k.mine (some r) (change_row k.mine (some new) db.rows))))
          again
      ∙ ap (λ rows. some (writes rows)) (change_row-change_row k.mine row new db.rows e mine)

  set_undone :
      (o' : Ovsdb (Db E)) (k : Kind E) (t : Session) (address : Text) (db : Db E) (p : Port)
      (a : Answer (Db E))
      → IsAtomic o'
      → IsKind k t
      → IsUseful k db.rows
      → port_lookup t.index db.ports ≡ some p
      → a.code ≡ cmd_success
      → a.said ≡ none
      → o'.started ≡ true
      → committed (o'.finish a.db db).0 ≡ true
      → Outcome k t address true db a
      → server_config o' k t address false a.db ≡ some (done db)
  set_undone o' k t address db p a atomic kind useful port ok quiet s taken
        (inl (same, inl failed)) =
      cc
  set_undone o' k t address db p a atomic kind useful port ok quiet s taken (inl (same, inr said)) =
      absurd (said quiet)
  set_undone o' k t address db p a atomic kind useful port ok quiet s taken
        (inr (rows, written, bound, is)) =
      let here : record db { rows = rows } ≡ a.db = ap (λ (b : Answer (Db E)). b.db) (sym is) in
      let goes : committed (o'.finish (record db { rows = rows }) db).0 ≡ true = rw here taken in
      subst (λ (d : Db E). server_config o' k t address false d ≡ some (done db)) here
        (commits o' k t address false (record db { rows = rows }) db.rows s goes atomic
          (undone k t address db p rows kind useful port bound written))

  pub server_config-undone :
      (o o' : Ovsdb (Db E)) (k : Kind E) (t : Session) (address : Text) (db : Db E) (p : Port)
      (a : Answer (Db E))
      → IsAtomic o
      → IsAtomic o'
      → IsKind k t
      → IsBounded db.rows
      → IsUseful k db.rows
      → port_lookup t.index db.ports ≡ some p
      → server_config o k t address true db ≡ some a
      → a.code ≡ cmd_success
      → a.said ≡ none
      → o'.started ≡ true
      → committed (o'.finish a.db db).0 ≡ true
      → server_config o' k t address false a.db ≡ some (done db)
  server_config-undone o o' k t address db p a atomic atomic' kind bound useful port runs ok quiet s
        taken =
      let (b, runs', outcome) = server_config-Outcome o k t address true db atomic kind.own bound in
      let same : b ≡ a = cc in
      set_undone o' k t address db p a atomic' kind useful port ok quiet s taken
        (subst (Outcome k t address true db) same outcome)
