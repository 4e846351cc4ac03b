-- ===== src/Stats.antt =====
-- refresh_dhcp_relay_stats of relay/udpfwd/src/udpfwd_config.c: the counters of the interfaces are
-- written to the database.
pub mod Exact
pub mod Tests
use ops_ipapps.Base.{
  ℕ, Bool, true, false, ◌||◌, not, Option, none, some, List, [], ◌∷◌, ℤ, pos, int_eq, if◌then◌else◌,
  Text,
}
use ops_ipapps.Relay.{Counters, Intf}

-- A row of the DHCP_Relay table: the name of its port, if it has one, and the port's statistics, if
-- there are any: for each key in turn the value that is found, or zero.
pub record StatsRow : Type 0 where
  pub port : Option Text
  pub statistics : Option (List ℤ)

-- The counters in the order of the keys.
abbrev pub counter_values : Counters → List ℕ
counter_values n =
    n.client_valids ∷ n.client_drops ∷ n.serv_valids ∷ n.serv_drops ∷ n.client_valids_with_option82
    ∷ n.client_drops_with_option82 ∷ n.serv_valids_with_option82 ∷ n.serv_drops_with_option82 ∷ []

-- int_values after the eight comparisons: only a value that differs is written to it.
pub update_values : List ℕ → List ℤ → List ℕ → List ℕ
update_values (count ∷ counts) (old ∷ olds) (value ∷ values) =
    (if int_eq (pos count) old then value else count) ∷ update_values counts olds values
update_values _ _ values = values

-- stats_change
unfoldable pub stats_change : List ℕ → List ℤ → Bool
stats_change (count ∷ counts) (old ∷ olds) =
    not (int_eq (pos count) old) || stats_change counts olds
stats_change _ _ = false

-- The round for one row: what is written to the database for it, and int_values, which the next row
-- finds as it is.
refresh_node : Text → Option Intf → Option (List ℤ) → List ℕ → List (Text × List ℕ) × List ℕ
unfolding update_values stats_change
refresh_node name none statistics values = ([], values)
refresh_node name (some node) none values = ([], values)
refresh_node name (some node) (some olds) values =
    let counts = counter_values node.counters in
    let values' = update_values counts olds values in
    (if stats_change counts olds then (name, values') ∷ [] else [], values')

refresh_row :
    (Text → Option Intf) → Option Text → Option (List ℤ) → List ℕ → List (Text × List ℕ) × List ℕ
unfolding refresh_node
refresh_row interfaces none statistics values = ([], values)
refresh_row interfaces (some name) statistics values =
    refresh_node name (interfaces name) statistics values

append_writes : List (Text × List ℕ) → List (Text × List ℕ) → List (Text × List ℕ)
append_writes [] later = later
append_writes (w ∷ ws) later = w ∷ append_writes ws later

refresh_rows : (Text → Option Intf) → List StatsRow → List ℕ → List (Text × List ℕ)
unfolding refresh_row append_writes
refresh_rows interfaces [] values = []
refresh_rows interfaces (row ∷ rows) values =
    let (written, values') = refresh_row interfaces row.port row.statistics values in
    append_writes written (refresh_rows interfaces rows values')

-- The writes of the transaction, in order; int_values starts as zeros.
pub refresh_dhcp_relay_stats : (Text → Option Intf) → List StatsRow → List (Text × List ℕ)
unfolding refresh_rows
refresh_dhcp_relay_stats interfaces rows =
    refresh_rows interfaces rows (0 ∷ 0 ∷ 0 ∷ 0 ∷ 0 ∷ 0 ∷ 0 ∷ 0 ∷ [])
