-- ===== src/Dhcpv6/Tests.antt =====
-- The tables of the DHCPv6 relay on concrete values.
use ops_ipapps.Base.{ℕ, ◌≡◌, refl, Option, none, [], ◌∷◌, replicate, Text}
use ops_ipapps.Tables.Heap.{cell, occupied}
use ops_ipapps.Dhcpv6.{Server, Tables}
use ops_ipapps.Dhcpv6.Rows.{row_delete, row_found}
use ops_ipapps.Dhcpv6.Skipped.{pair, row_delete-faults}

abbrev server_at : Text → Server
server_at ip = record { ipv6_address = ip; egress_if_name = none; ref_count = 1 }

abbrev tables : Tables
tables = record {
  servers = (2, server_at (49 ∷ [])) ∷ (3, server_at (50 ∷ [])) ∷ [];
  nodes = (1, pair (101 ∷ []) 2 3 (replicate 6 0)) ∷ [];
  names = (101 ∷ [], 1) ∷ [];
}

abbrev no_hash : Text → Option Text → ℕ
no_hash ip egress = 0

row_delete-faults_example : row_delete no_hash [] tables ≡ none
unfolding cell occupied row_found
row_delete-faults_example =
    row_delete-faults no_hash [] (101 ∷ []) (101 ∷ []) 1 2 3 (replicate 6 0) []
      (server_at (49 ∷ [])) tables refl refl refl refl refl
