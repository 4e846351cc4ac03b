-- ===== src/Cli/ServerConfig/Updates.antt =====
-- What the writing steps of a server command write.
use ops_ipapps.Base.{
  ◌≡◌, refl, sym, ◌∙◌, ap, subst, true, false, Bool, not, ◌&&◌, ◌==◌, length, Option, none, some,
  List, [], ◌∷◌, ◌++◌, Text, arith,
}
use ops_ipapps.Relay.{same_text}
use ops_ipapps.Cli.Servers.{
  Row, Db, Session, Port, named, port_lookup, without, with_port, with_vrf,
  udp_bcast_config_vrf_lookup, udpfwd_setcommoncolumn, first_row, change_row,
}
use ops_ipapps.Cli.ServerConfig.{Kind, writes, blank_row, insert_row, update_servers}
use ops_ipapps.Cli.ServerConfig.Totals.{
  contains, udpfwd_serverupdate-add, udpfwd_serverupdate-delete,
}

module _ {E : Type 0} (k : Kind E) (address : Text) (db : Db E) where
  abbrev pub with_address : Row E → Row E
  with_address row = record row { servers = row.servers ++ address ∷ [] }

  abbrev pub without_address : Row E → Row E
  without_address row = record row { servers = without address row.servers }

  pub update_servers-add :
      (row : Row E)
      → update_servers k true address db row
        ≡ some (writes (change_row k.mine (some (with_address row)) db.rows))
  update_servers-add row = rw (udpfwd_serverupdate-add address row.servers) refl

  pub update_servers-delete :
      (row : Row E)
      → contains address row.servers ≡ true
      → update_servers k false address db row
        ≡ some (writes (change_row k.mine (some (without_address row)) db.rows))
  update_servers-delete row c = rw (udpfwd_serverupdate-delete address row.servers c) refl

  pub insert_row-add :
      (row : Row E)
      → insert_row k address db (some row)
        ≡ some (writes (db.rows ++ record (with_address row) { extra = k.fresh } ∷ []))
  insert_row-add row = rw (udpfwd_serverupdate-add address row.servers) refl

-- The tables that a command can write, by whether it sets or unsets.
pub data Written {E : Type 0} (k : Kind E) (t : Session) (address : Text) (db : Db E)
    : Bool → List (Row E) → Type 0 where
  inserted :
      (row : Row E)
      → first_row k.mine db.rows ≡ none
      → udpfwd_setcommoncolumn t db (blank_row k) ≡ some row
      → Written k t address db true
          (db.rows ++ record (with_address k address db row) { extra = k.fresh } ∷ [])
  added :
      (row : Row E)
      → first_row k.mine db.rows ≡ some row
      → contains address row.servers ≡ false
      → Written k t address db true
          (change_row k.mine (some (with_address k address db row)) db.rows)
  deleted :
      (row : Row E)
      → first_row k.mine db.rows ≡ some row
      → contains address row.servers ≡ true
      → ((length row.servers == 1) && not (k.stays row)) ≡ true
      → Written k t address db false (change_row k.mine none db.rows)
  removed :
      (row : Row E)
      → first_row k.mine db.rows ≡ some row
      → contains address row.servers ≡ true
      → ((length row.servers == 1) && not (k.stays row)) ≡ false
      → Written k t address db false
          (change_row k.mine (some (without_address k address db row)) db.rows)

port_lookup-named :
    (name : Text) (ports : List Port) (p : Port)
    → port_lookup name ports ≡ some p
    → same_text p.name name ≡ true
port_lookup-named name [] p e = cc
port_lookup-named name (q ∷ ports) p e = ground (arith, port_lookup-named name ports p)

vrf_lookup-named :
    (name : Text) (vrfs : List Text) (vrf : Text)
    → udp_bcast_config_vrf_lookup name vrfs ≡ some vrf
    → same_text vrf name ≡ true
unfolding udp_bcast_config_vrf_lookup
vrf_lookup-named name [] vrf e = cc
vrf_lookup-named name (v ∷ vrfs) vrf e = ground (arith, vrf_lookup-named name vrfs vrf)

module _ {E : Type 0} where
  with_vrf-row :
      (vrf : Option Text) (row new : Row E)
      → with_vrf vrf row ≡ some new
      → (new.port ≡ row.port) × (new.servers ≡ row.servers)
  with_vrf-row none row new e = cc
  with_vrf-row (some vrf) row new e =
      let same : record row { vrf = some vrf } ≡ new = cc in
      (sym (ap (λ (r : Row E). r.port) same), sym (ap (λ (r : Row E). r.servers) same))

  with_port-row :
      (name : Text) (found : Option Port) (row : Row E)
      → row.port ≡ none
      → ((p : Port) → found ≡ some p → same_text p.name name ≡ true)
      → (other : Text) → named other (with_port found row).port ≡ true
      → named name (with_port found row).port ≡ true
  with_port-row name none row e is other h = ground arith
  with_port-row name (some p) row e is other h = is p refl

  with_port-servers :
      (found : Option Port) (row : Row E) → (with_port found row).servers ≡ row.servers
  with_port-servers none row = refl
  with_port-servers (some p) row = refl

  -- The new row has the port of the terminal's interface, if any, and no servers yet.
  pub udpfwd_setcommoncolumn-row :
      (k : Kind E) (t : Session) (db : Db E) (row : Row E)
      → udpfwd_setcommoncolumn t db (blank_row k) ≡ some row
      → ((other : Text) → named other row.port ≡ true → named t.index row.port ≡ true)
        × (row.servers ≡ [])
  unfolding udpfwd_setcommoncolumn
  udpfwd_setcommoncolumn-row k t db row e =
      let (port, servers) = with_vrf-row _ _ row e in
      (
        λ other.
            rw port (
              with_port-row t.index _ (blank_row k) refl (port_lookup-named t.index db.ports)
                other),
        servers ∙ with_port-servers (port_lookup t.index db.ports) (blank_row k),
      )

  with_vrf-named :
      (name : Text) (vrf : Option Text) (row new : Row E)
      → ((v : Text) → vrf ≡ some v → same_text v name ≡ true)
      → with_vrf vrf row ≡ some new
      → named name new.vrf ≡ true
  with_vrf-named name none row new is e = cc
  with_vrf-named name (some vrf) row new is e =
      let same : record row { vrf = some vrf } ≡ new = cc in
      subst (λ (r : Row E). named name r.vrf ≡ true) same (is vrf refl)

  -- With a port of that name the new row is the interface's, in the default VRF.
  pub udpfwd_setcommoncolumn-named :
      (k : Kind E) (t : Session) (db : Db E) (p : Port) (row : Row E)
      → port_lookup t.index db.ports ≡ some p
      → udpfwd_setcommoncolumn t db (blank_row k) ≡ some row
      → (named t.index row.port ≡ true) × (named t.default_vrf row.vrf ≡ true)
  unfolding udpfwd_setcommoncolumn
  udpfwd_setcommoncolumn-named k t db p row found e =
      let (port, _) = with_vrf-row _ _ row e in
      let mine : named t.index (with_port (port_lookup t.index db.ports) (blank_row k)).port
          ≡ true =
        rw found (port_lookup-named t.index db.ports p found) in
      (
        rw port mine,
        with_vrf-named t.default_vrf _ _ row (vrf_lookup-named t.default_vrf db.vrfs) e,
      )
