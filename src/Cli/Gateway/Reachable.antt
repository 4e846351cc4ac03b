-- ===== src/Cli/Gateway/Reachable.antt =====
-- The DHCP_Relay tables that the helper-address and gateway commands leave.
use ops_ipapps.Base.{
  ◌≡◌, subst, Bool, none, some, List, [], Text, arith, Bool-cases, Option-cases, if_elim, inl, inr,
}
use ops_ipapps.Cli.{Answer, Ovsdb, IsAtomic, failed, Smap, IsSmap}
use ops_ipapps.Cli.Outcomes.{finish_txn_lem}
use ops_ipapps.Cli.Servers.{Db, Session, Port}
use ops_ipapps.Cli.ServerConfig.{
  Step, gives_up, writes, end_step, helper_kind, dhcp_relay_helperaddressconfig,
}
use ops_ipapps.Cli.ServerConfig.Safe.{Outcome, server_config-Outcome}
use ops_ipapps.Cli.ServerConfig.Claims.{helper_kind-IsKind}
use ops_ipapps.Cli.Gateway.{gateway_step, dhcp_relay_bootp_gateway_config}
use ops_ipapps.Cli.Gateway.Helpers.{Written-IsTidy}
use ops_ipapps.Cli.Gateway.Sound.{IsTable, TableStep, gateway_step-TableRun}

module _ {M : Type 0} (smap : Smap M) where
  end_step-IsTable :
      (o : Ovsdb (Db M)) (db : Db M) (step : Step M)
      → IsAtomic o
      → IsTable smap db.rows
      → TableStep smap db step
      → IsTable smap (end_step o db step).db.rows
  end_step-IsTable o db (gives_up a) atomic h same = rw same h
  end_step-IsTable o db (writes rows) atomic h sound =
      rw (finish_txn_lem o db (record db { rows = rows }) atomic)
        (if_elim (λ (a : Answer (Db M)). IsTable smap a.db.rows) _ _ _ (λ _. sound) (λ _. h))

  gateway-IsTable :
      (o : Ovsdb (Db M)) (t : Session) (gateway : Text) (set : Bool) (db : Db M) (a : Answer (Db M))
      → IsSmap smap
      → IsAtomic o
      → IsTable smap db.rows
      → dhcp_relay_bootp_gateway_config smap o t gateway set db ≡ some a
      → IsTable smap a.db.rows
  unfolding dhcp_relay_bootp_gateway_config
  gateway-IsTable o t gateway set db a laws atomic h runs = elim (Bool-cases o.started) [
    | inl s ↦ elim (Option-cases (gateway_step smap t gateway set db)) [
      | inl fault ↦ let impossible : none ≡ some a = simp (s, fault) at runs in cc
      | inr (step, is) ↦
          let same : some (end_step o db step) ≡ some a = simp (s, is) at runs in
          let ends : end_step o db step ≡ a = cc in
          subst (λ (b : Answer (Db M)). IsTable smap b.db.rows) ends
            (end_step-IsTable o db step atomic h
              (gateway_step-TableRun smap laws t gateway db h set step is))
    ]
    | inr s ↦
        let same : some (failed db) ≡ some a = simp s at runs in
        let ends : failed db ≡ a = cc in
        subst (λ (b : Answer (Db M)). IsTable smap b.db.rows) ends h
  ]

  Outcome-IsTable :
      (t : Session) (address : Text) (set : Bool) (db : Db M) (a : Answer (Db M))
      → IsTable smap db.rows
      → Outcome (helper_kind smap t) t address set db a
      → IsTable smap a.db.rows
  Outcome-IsTable t address set db a h (inl (same, _)) = rw same h
  Outcome-IsTable t address set db a h (inr (rows, written, bound, is)) =
      rw is (Written-IsTidy smap t address set db rows h.0 written, bound)

  helper-IsTable :
      (o : Ovsdb (Db M)) (t : Session) (address : Text) (set : Bool) (db : Db M) (a : Answer (Db M))
      → IsSmap smap
      → IsAtomic o
      → IsTable smap db.rows
      → dhcp_relay_helperaddressconfig smap o t address set db ≡ some a
      → IsTable smap a.db.rows
  unfolding dhcp_relay_helperaddressconfig
  helper-IsTable o t address set db a laws atomic h runs =
      let kind = helper_kind-IsKind smap t laws in
      let (b, runs', outcome) =
        server_config-Outcome o (helper_kind smap t) t address set db atomic kind.own h.1 in
      let same : b ≡ a = cc in
      Outcome-IsTable t address set db a h
        (subst (Outcome (helper_kind smap t) t address set db) same outcome)

  -- The databases that the commands leave from an empty table, each in a session and with a
  -- transaction of its own, while the ports and the VRFs change at will.
  pub data Reachable : Db M → Type 0 where
    start :
        (ports : List Port) (vrfs : List Text)
        → Reachable (record { rows = []; ports = ports; vrfs = vrfs })
    world :
        (db : Db M) (ports : List Port) (vrfs : List Text)
        → Reachable db
        → Reachable (record db { ports = ports; vrfs = vrfs })
    helper :
        (o : Ovsdb (Db M)) (t : Session) (address : Text) (set : Bool) (db : Db M)
        (a : Answer (Db M))
        → Reachable db
        → IsAtomic o
        → dhcp_relay_helperaddressconfig smap o t address set db ≡ some a
        → Reachable a.db
    gateway :
        (o : Ovsdb (Db M)) (t : Session) (address : Text) (set : Bool) (db : Db M)
        (a : Answer (Db M))
        → Reachable db
        → IsAtomic o
        → dhcp_relay_bootp_gateway_config smap o t address set db ≡ some a
        → Reachable a.db

  -- In every database that the helper-address and gateway commands leave from an empty DHCP_Relay
  -- table, each row has helper addresses or a gateway, the addresses of a row are distinct, and no
  -- interface has more than eight of them.
  pub Reachable-IsTable : IsSmap smap → (db : Db M) → Reachable db → IsTable smap db.rows
  Reachable-IsTable laws _ (start ports vrfs) = (tt, λ name. omega arith)
  Reachable-IsTable laws _ (world db ports vrfs r) = Reachable-IsTable laws db r
  Reachable-IsTable laws _ (helper o t address set db a r atomic runs) =
      helper-IsTable o t address set db a laws atomic (Reachable-IsTable laws db r) runs
  Reachable-IsTable laws _ (gateway o t address set db a r atomic runs) =
      gateway-IsTable o t address set db a laws atomic (Reachable-IsTable laws db r) runs
