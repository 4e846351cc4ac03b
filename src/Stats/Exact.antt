-- ===== src/Stats/Exact.antt =====
-- When the statistics that are written are the counters.
use ops_ipapps.Base.{
  ℕ, ◌≡◌, refl, sym, ap, ◌∙◌, ◌↔◌, Bool, true, ◌||◌, ◌&&◌, not, Option, some, List, [], ◌∷◌, ℤ, pos,
  int_eq, ◌==◌, length, Text, arith,
}
use ops_ipapps.Relay.{Intf}
use ops_ipapps.Stats.{
  StatsRow, counter_values, update_values, stats_change, refresh_node, refresh_row, refresh_rows,
  append_writes, refresh_dhcp_relay_stats,
}

-- Every counter that has not changed is zero.
abbrev pub unchanged_are_zero : List ℕ → List ℤ → Bool
unchanged_are_zero (count ∷ counts) (old ∷ olds) =
    (not (int_eq (pos count) old) || (count == 0)) && unchanged_are_zero counts olds
unchanged_are_zero _ _ = true

abbrev zeros : List ℕ → List ℕ
zeros [] = []
zeros (count ∷ counts) = 0 ∷ zeros counts

update_values_sound :
    (counts : List ℕ) (olds : List ℤ)
    → length counts ≡ length olds
    → unchanged_are_zero counts olds ≡ true
    → update_values counts olds (zeros counts) ≡ counts
unfolding update_values
update_values_sound [] [] len h = refl
update_values_sound [] (old ∷ olds) len h = refl
update_values_sound (count ∷ counts) [] len h = absurd (omega arith)
update_values_sound (count ∷ counts) (old ∷ olds) len h =
    ground (arith, update_values_sound counts olds)

update_values_complete :
    (counts : List ℕ) (olds : List ℤ)
    → update_values counts olds (zeros counts) ≡ counts
    → unchanged_are_zero counts olds ≡ true
unfolding update_values
update_values_complete [] olds e = refl
update_values_complete (count ∷ counts) [] e = refl
update_values_complete (count ∷ counts) (old ∷ olds) e =
    ground (arith, update_values_complete counts olds)

-- The values of a single write.
same_write :
    (name : Text) (v w : List ℕ) (e : List (Text × List ℕ))
    → e ≡ (name, v) ∷ []
    → e ≡ (name, w) ∷ []
    → v ≡ w
same_write name v w e h k = ap values_of (sym h ∙ k)
  where
    values_of : List (Text × List ℕ) → List ℕ
    values_of [] = v
    values_of (x ∷ xs) = x.1

refresh_one_row :
    (interfaces : Text → Option Intf) (row : StatsRow) (name : Text) (node : Intf) (olds : List ℤ)
    → row.port ≡ some name
    → interfaces name ≡ some node
    → row.statistics ≡ some olds
    → stats_change (counter_values node.counters) olds ≡ true
    → refresh_dhcp_relay_stats interfaces (row ∷ [])
      ≡ (
        name,
        update_values (counter_values node.counters) olds (zeros (counter_values node.counters)),
      )
        ∷ []
unfolding refresh_dhcp_relay_stats refresh_rows refresh_row refresh_node append_writes
refresh_one_row interfaces row name node olds port listed held changed =
    simp (port, listed, held, changed)

-- Where the table has one row, for a port with an interface node, with all eight statistics, one of
-- which at least differs from its counter: the statistics that are written are the counters exactly
-- when every counter that equals its statistic is zero. (Any other such counter is written as zero.)
pub refresh_dhcp_relay_stats_exact :
    (interfaces : Text → Option Intf) (row : StatsRow) (name : Text) (node : Intf) (olds : List ℤ)
    → row.port ≡ some name
    → interfaces name ≡ some node
    → row.statistics ≡ some olds
    → length olds ≡ 8
    → stats_change (counter_values node.counters) olds ≡ true
    → (refresh_dhcp_relay_stats interfaces (row ∷ []) ≡ (name, counter_values node.counters) ∷ [])
      ↔ (unchanged_are_zero (counter_values node.counters) olds ≡ true)
refresh_dhcp_relay_stats_exact interfaces row name node olds port listed held eight changed =
    let counts = counter_values node.counters in
    let written : List ℕ → List (Text × List ℕ) = λ v. (name, v) ∷ [] in
    let e = refresh_one_row interfaces row name node olds port listed held changed in
    (
      λ h. update_values_complete counts olds (same_write name _ _ _ e h),
      λ z. e ∙ ap (λ (v : List ℕ). written v) (update_values_sound counts olds (sym eight) z),
    )
