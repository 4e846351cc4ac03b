-- ===== src/Cli/ServerConfig/Counted.antt =====
-- What a forward-protocol command writes, by how often each address stands in the table.
use ops_ipapps.Base.{
  ℕ, ◌+◌, ◌≡◌, refl, sym, ◌∙◌, ap, subst, Bool, true, false, not, ◌&&◌, Option, none, some, List,
  [], ◌∷◌, ◌++◌, if◌then◌else◌, leb, Text, arith, Bool-cases, inl, inr,
}
use ops_ipapps.Relay.{same_text}
use ops_ipapps.Cli.Servers.{Row, Db, Session, Port, port_lookup, first_row, change_row, without}
use ops_ipapps.Cli.ServerConfig.{protocol_kind, udp_bcast_server_mine}
use ops_ipapps.Cli.ServerConfig.Totals.{same_text→eq, same_text_refl, contains, first_row-test}
use ops_ipapps.Cli.ServerConfig.Updates.{
  with_address, without_address, Written, inserted, added, deleted, removed,
  udpfwd_setcommoncolumn-row, udpfwd_setcommoncolumn-named,
}
use ops_ipapps.Cli.ServerConfig.Effect.{only_one}
use ops_ipapps.Cli.ServerConfig.Count.{
  copies, share, share_of, entries, same_place, copies-append, copies-absent, copies-present,
  copies-without, copies-without_other, entries-change_row, entries-append, is_at-mine, share-mine,
  entries-none,
}

-- The command's address was at its place if and only if it is unset, and stands there once or not at
-- all afterwards; every other address, and this one at every other place, stands as often as before.
pub record Counted (t : Session) (udp_port : ℕ) (address : Text) (set : Bool)
    (rows new : List (Row ℕ)) : Type 0 where
  pub before : leb 1 (entries t.index t.default_vrf udp_port address rows) ≡ not set
  pub after :
      (name vrf : Text) (number : ℕ) (other : Text)
      → entries name vrf number other new ≡ (
          if same_place t udp_port name vrf number && same_text address other
          then (if set then 1 else 0)
          else entries name vrf number other rows)

at_place :
    (t : Session) (udp_port : ℕ) (name vrf : Text) (number : ℕ) (other : Text) (rows : List (Row ℕ))
    → same_place t udp_port name vrf number ≡ true
    → entries t.index t.default_vrf udp_port other rows ≡ entries name vrf number other rows
at_place t udp_port name vrf number other rows h =
    let is_name : same_text t.index name ≡ true = ground arith in
    let is_vrf : same_text t.default_vrf vrf ≡ true = ground arith in
    let is_number : udp_port ≡ number = ground arith in
    let n = same_text→eq t.index name is_name in
    let v = same_text→eq t.default_vrf vrf is_vrf in
    λ i. entries (n i) (v i) (is_number i) other rows

-- From what a change does to one row to what it does to the table.
settle :
    (address other : Text) (place : Bool) (before after was is n : ℕ) (servers servers' : List Text)
    → after + was ≡ before + is
    → was ≡ (if place then copies other servers else 0)
    → is ≡ (if place then copies other servers' else 0)
    → (place ≡ true → before ≡ copies other servers)
    → copies address servers' ≡ n
    → (same_text other address ≡ false → copies other servers' ≡ copies other servers)
    → after ≡ (if place && same_text address other then n else before)
settle address other false before after was is n servers servers' sum w w' only c keep = omega arith
settle address other true before after was is n servers servers' sum w w' only c keep =
    let all = only refl in
    elim (Bool-cases (same_text address other)) [
      | inl e ↦
          let same : copies other servers' ≡ n =
            subst (λ a. copies a servers' ≡ n) (same_text→eq address other e) c in
          simp e (omega arith)
      | inr e ↦ elim (Bool-cases (same_text other address)) [
        | inl f ↦
            let back : same_text address other ≡ true =
              subst (λ a. same_text a other ≡ true) (same_text→eq other address f)
                (same_text_refl other) in
            cc
        | inr f ↦ let kept = keep f in simp e (omega arith)
      ]
    ]

module _ (t : Session) (udp_port : ℕ) where
  -- With one row for the place, its servers are all that the place has.
  only_row :
      (rows : List (Row ℕ)) (row : Row ℕ) (other : Text)
      → (let mine = udp_bcast_server_mine t udp_port in
          (first_row mine rows ≡ some row) × (first_row mine (change_row mine none rows) ≡ none))
      → entries t.index t.default_vrf udp_port other rows ≡ copies other row.servers
  only_row rows row other (found, one) =
      let mine = udp_bcast_server_mine t udp_port in
      let is = is_at-mine t udp_port row ∙ first_row-test mine rows row found in
      let own : share t.index t.default_vrf udp_port other row ≡ copies other row.servers =
        simp is refl in
      let sum = entries-change_row t.index t.default_vrf udp_port other mine none rows row found in
      let nothing = entries-none t udp_port other (change_row mine none rows) one in omega arith

  module _ (address : Text) (rows : List (Row ℕ)) where
    -- A row that is found is changed, or goes.
    changed :
        (row : Row ℕ) (new : Option (Row ℕ)) (servers' : List Text) (n : ℕ)
        → first_row (udp_bcast_server_mine t udp_port) rows ≡ some row
        → first_row
            (udp_bcast_server_mine t udp_port)
            (change_row (udp_bcast_server_mine t udp_port) none rows)
          ≡ none
        → ((name vrf : Text) (number : ℕ) (other : Text)
            → share_of name vrf number other new
              ≡ (if same_place t udp_port name vrf number then copies other servers' else 0))
        → copies address servers' ≡ n
        → ((other : Text)
            → same_text other address ≡ false
            → copies other servers' ≡ copies other row.servers)
        → (name vrf : Text) (number : ℕ) (other : Text)
        → entries name vrf number other (change_row (udp_bcast_server_mine t udp_port) new rows) ≡ (
            if same_place t udp_port name vrf number && same_text address other
            then n
            else entries name vrf number other rows)
    changed row new servers' n found one is_new c keep name vrf number other =
        let mine = udp_bcast_server_mine t udp_port in
        settle address other (same_place t udp_port name vrf number)
          (entries name vrf number other rows)
          (entries name vrf number other (change_row mine new rows))
          (share name vrf number other row) (share_of name vrf number other new) n row.servers
          servers' (entries-change_row name vrf number other mine new rows row found)
          (share-mine t udp_port row name vrf number other (first_row-test mine rows row found))
          (is_new name vrf number other)
          (λ here.
            sym (at_place t udp_port name vrf number other rows here)
            ∙ only_row rows row other (found, one))
          c (keep other)

    copies-added :
        (servers : List Text)
        → contains address servers ≡ false
        → copies address (servers ++ address ∷ []) ≡ 1
    copies-added servers c =
        let sum = copies-append address address servers in
        let absent = copies-absent address servers c in
        let self = same_text_refl address in ground arith

    copies-added_other :
        (servers : List Text) (other : Text)
        → same_text other address ≡ false
        → copies other (servers ++ address ∷ []) ≡ copies other servers
    copies-added_other servers other n =
        let sum = copies-append other address servers in ground arith

  pub Written-Counted :
      (address : Text) (set : Bool) (db : Db ℕ) (p : Port) (rows : List (Row ℕ))
      → first_row
          (udp_bcast_server_mine t udp_port)
          (change_row (udp_bcast_server_mine t udp_port) none db.rows)
        ≡ none
      → port_lookup t.index db.ports ≡ some p
      → Written (protocol_kind t udp_port) t address db set rows
      → Counted t udp_port address set db.rows rows
  Written-Counted address _ db p _ one port (inserted row absent e) =
      let k = protocol_kind t udp_port in
      let new : Row ℕ = record (with_address k address db row) { extra = udp_port } in
      let (named_port, named_vrf) = udpfwd_setcommoncolumn-named k t db p row port e in
      let (_, empty) = udpfwd_setcommoncolumn-row k t db row e in
      let mine : udp_bcast_server_mine t udp_port new ≡ true = ground arith in
      let nothing = entries-none t udp_port address db.rows absent in
      record {
        before = rw nothing refl;
        after = λ name vrf number other.
            settle address other (same_place t udp_port name vrf number)
              (entries name vrf number other db.rows)
              (entries name vrf number other (db.rows ++ new ∷ [])) 0
              (share name vrf number other new) 1 [] (row.servers ++ address ∷ [])
              (let sum = entries-append name vrf number other db.rows new in omega arith)
              (ground arith) (share-mine t udp_port new name vrf number other mine)
              (λ here.
                sym (at_place t udp_port name vrf number other db.rows here)
                ∙ entries-none t udp_port other db.rows absent)
              (copies-added address db.rows row.servers (rw empty refl))
              (λ n.
                copies-added_other address db.rows row.servers other n ∙ ap (copies other) empty);
      }
  Written-Counted address _ db p _ one port (added row e c) =
      let k = protocol_kind t udp_port in
      let new : Row ℕ = with_address k address db row in
      let mine : udp_bcast_server_mine t udp_port new ≡ true =
        first_row-test (udp_bcast_server_mine t udp_port) db.rows row e in
      let all = only_row db.rows row address (e, one) in
      let absent = copies-absent address row.servers c in
      record {
        before = rw (all, absent) refl;
        after =
            changed address db.rows row (some new) (row.servers ++ address ∷ []) 1 e one
              (λ name vrf number other. share-mine t udp_port new name vrf number other mine)
              (copies-added address db.rows row.servers c)
              (copies-added_other address db.rows row.servers);
      }
  Written-Counted address _ db p _ one port (deleted row e c last) =
      let all = only_row db.rows row address (e, one) in
      let present = copies-present address row.servers c in
      let gone : without address row.servers ≡ [] = only_one address row.servers _ c last in
      record {
        before = rw all (ground arith);
        after =
            changed address db.rows row none [] 0 e one (λ name vrf number other. ground arith) refl
              (λ other n.
                ap (copies other) (sym gone) ∙ copies-without_other other address row.servers n);
      }
  Written-Counted address _ db p _ one port (removed row e c more) =
      let k = protocol_kind t udp_port in
      let new : Row ℕ = without_address k address db row in
      let mine : udp_bcast_server_mine t udp_port new ≡ true =
        first_row-test (udp_bcast_server_mine t udp_port) db.rows row e in
      let all = only_row db.rows row address (e, one) in
      let present = copies-present address row.servers c in
      record {
        before = rw all (ground arith);
        after =
            changed address db.rows row (some new) (without address row.servers) 0 e one
              (λ name vrf number other. share-mine t udp_port new name vrf number other mine)
              (copies-without address row.servers)
              (λ other. copies-without_other other address row.servers);
      }
