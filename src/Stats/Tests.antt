-- ===== src/Stats/Tests.antt =====
-- The statistics of one interface with two counters.
use ops_ipapps.Base.{◌≡◌, ◌↔◌, refl, true, some, List, [], ◌∷◌, ℤ, pos, Text}
use ops_ipapps.Relay.{Intf}
use ops_ipapps.Stats.{StatsRow, counter_values, stats_change, refresh_dhcp_relay_stats}
use ops_ipapps.Stats.Exact.{unchanged_are_zero, refresh_dhcp_relay_stats_exact}

abbrev eth : Text
eth = b'e' ∷ []

abbrev node : Intf
node = record {
  servers = [];
  bootp_gw = 0;
  counters = record {
    client_drops = 0;
    client_valids = 7;
    serv_drops = 0;
    serv_valids = 4;
    client_drops_with_option82 = 0;
    client_valids_with_option82 = 0;
    serv_drops_with_option82 = 0;
    serv_valids_with_option82 = 0;
  };
}

-- The server's valid replies have not changed since the last refresh.
abbrev olds : List ℤ
olds = pos 6 ∷ pos 0 ∷ pos 4 ∷ pos 0 ∷ pos 0 ∷ pos 0 ∷ pos 0 ∷ pos 0 ∷ []

abbrev row : StatsRow
row = record { port = some eth; statistics = some olds }

changed : stats_change (counter_values node.counters) olds ≡ true
unfolding stats_change
changed = refl

refresh_dhcp_relay_stats_exact_example :
    (refresh_dhcp_relay_stats (λ name. some node) (row ∷ [])
      ≡ (eth, counter_values node.counters) ∷ [])
    ↔ (unchanged_are_zero (counter_values node.counters) olds ≡ true)
refresh_dhcp_relay_stats_exact_example =
    refresh_dhcp_relay_stats_exact (λ name. some node) row eth node olds refl refl refl refl changed
