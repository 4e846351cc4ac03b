-- ===== src/Rows/Tests.antt =====
-- The handlers of rows on concrete tables.
use ops_ipapps.Base.{
  Bool, ℕ, ◌+◌, ◌<◌, ◌≡◌, refl, true, false, ◌&&◌, Option, none, some, List, [], ◌∷◌, ◌==◌,
  if◌then◌else◌, arith, inl, Text,
}
use ops_ipapps.Tables.{Tables, find_name, remove_address}
use ops_ipapps.Tables.Store.{store_address}
use ops_ipapps.Tables.Heap.{cell, write, free}
use ops_ipapps.Tables.Valid.{IsValid, ref_count_of}
use ops_ipapps.Tables.Tally.{serves}
use ops_ipapps.Tables.View.{servers_at}
use ops_ipapps.Tables.Concrete.{
  heap, heap-IsSound, eth, node_with, tables_with, tables_with-IsValid,
}
use ops_ipapps.Rows.{BcastForwarderRow, server_ip_exists}
use ops_ipapps.Tables.Share.{HasRoom}
use ops_ipapps.Rows.Change.{udp_bcast_forwarder_config_change, create_intferface_node, new_node}
use ops_ipapps.Rows.Reachable.{no_tables, Reachable, start, created, stored, Reachable-IsValid}
use ops_ipapps.Rows.Deletion.{NoZero}
use ops_ipapps.Rows.Freed.{udp_bcast_forwarder_config_change-faults}
use ops_ipapps.Rows.Storing.{IsPlentiful, times}
use ops_ipapps.Rows.Update.{updated, udp_bcast_forwarder_config_change-updates}

-- An address is spelled by one character.
abbrev aton : Text → Option ℕ
aton [] = none
aton (c ∷ cs) = some c

abbrev row : BcastForwarderRow
row = record {
  src_port = some eth;
  dest_vrf = true;
  udp_dport = 53;
  ipv4_ucast_server = (30 ∷ []) ∷ [];
  changed = true;
}

tables_with-NoZero : (gateway port : ℕ) → NoZero (tables_with gateway port)
unfolding serves cell
tables_with-NoZero gateway port q u = ground arith

all_replaced :
    (i u : ℕ)
    → 0 < serves (tables_with 0 53) 1 i u
    → (u ≡ 53) × (server_ip_exists aton i ((30 ∷ []) ∷ []) ≡ false)
unfolding serves cell server_ip_exists
all_replaced i u held = (ground arith, ground arith)

udp_bcast_forwarder_config_change-faults_example :
    udp_bcast_forwarder_config_change aton heap row (tables_with 0 53) ≡ none
unfolding cell find_name
udp_bcast_forwarder_config_change-faults_example =
    udp_bcast_forwarder_config_change-faults aton heap row eth 1 (node_with 0) (tables_with 0 53)
      refl refl refl refl (tables_with-IsValid 0 53) (tables_with-NoZero 0 53) (omega arith)
      (omega arith) refl all_replaced refl

heap-IsPlentiful : IsPlentiful heap
heap-IsPlentiful = record { servers = λ used e. cc; arrays = λ t e. cc }

tables-room : (a : ℕ) → ref_count_of (cell a (tables_with 9 67).servers) + 16 < 65536
unfolding cell
tables-room a = ground arith

udp_bcast_forwarder_config_change-updates_example :
    (t' : Tables) × (udp_bcast_forwarder_config_change aton heap row (tables_with 9 67)
      ≡ some (tt, t'))
    × IsValid t'
    × ((q i u : ℕ)
        → serves t' q i u ≡ (
            if (1 == q) && (u == 53)
            then updated (serves (tables_with 9 67) 1 i u) (times aton i ((30 ∷ []) ∷ []))
            else serves (tables_with 9 67) q i u))
unfolding cell find_name
udp_bcast_forwarder_config_change-updates_example =
    udp_bcast_forwarder_config_change-updates aton heap row eth 1 (node_with 9) (tables_with 9 67)
      heap-IsSound heap-IsPlentiful refl refl (omega arith) refl refl (tables_with-IsValid 9 67)
      (tables_with-NoZero 9 67) (omega arith) (omega arith) (omega arith) tables-room
      (inl (omega arith))

abbrev servers_after : Option (Unit {0} × Tables) → Option (List (Option (ℕ × ℕ)))
servers_after none = none
servers_after (some (u, t)) = servers_at t 1

changed_servers :
    servers_after (udp_bcast_forwarder_config_change aton heap row (tables_with 9 67))
    ≡ some (some (10, 67) ∷ some (30, 53) ∷ [])
unfolding servers_at cell udp_bcast_forwarder_config_change write free find_name remove_address
    store_address
changed_servers = refl

-- The tables after an interface is created and a server is stored.
abbrev created_tables : Option (Option ℕ × Tables) → Tables
created_tables none = no_tables
created_tables (some (o, t)) = t

abbrev with_node : Tables
with_node = created_tables (create_intferface_node aton heap eth no_tables)

with_node-Reachable : Reachable aton heap with_node
unfolding create_intferface_node
with_node-Reachable = created eth (some 1) no_tables with_node start refl

with_node-HasRoom : HasRoom with_node
unfolding cell create_intferface_node
with_node-HasRoom a = omega arith

abbrev stored_tables : Option (Bool × Tables) → Tables
stored_tables none = no_tables
stored_tables (some (b, t)) = t

abbrev with_server : Tables
with_server = stored_tables (store_address heap 1 20 53 with_node)

with_server-Reachable : Reachable aton heap with_server
unfolding create_intferface_node cell store_address write
with_server-Reachable =
    stored 1 20 53 (new_node eth) true with_node with_server with_node-Reachable with_node-HasRoom
      refl refl

Reachable-IsValid_example : IsValid with_server
Reachable-IsValid_example =
    Reachable-IsValid aton heap with_server heap-IsSound with_server-Reachable
