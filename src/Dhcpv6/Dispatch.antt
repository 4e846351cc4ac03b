-- ===== src/Dhcpv6/Dispatch.antt =====
-- dhcpv6r_server_config_update of relay/dhcpv6r/src/dhcpv6_relay.c: which handlers a change of
-- DHCP_Relay calls.
use ops_ipapps.Base.{ℕ, Option, List, [], ◌∷◌, Text}
use ops_ipapps.Base.Run.{pure, ◌>>◌}
use ops_ipapps.Rows.Dispatch.{TableChanges, when, has_changes}
use ops_ipapps.Dhcpv6.{Run, Allocator}
use ops_ipapps.Dhcpv6.Rows.{Dhcpv6RelayRow, row_delete, config_change}

module _ (hash : Text → Option Text → ℕ) (a : Allocator) where
  unfoldable pub rows_changed : List Dhcpv6RelayRow → Run (Unit {0})
  rows_changed [] = pure tt
  rows_changed (rec ∷ rows) = do when rec.changed (config_change hash a rec); rows_changed rows

  unfoldable pub server_config_update : TableChanges → List Dhcpv6RelayRow → Run (Unit {0})
  unfolding rows_changed
  server_config_update c [] = row_delete hash []
  server_config_update c (rec ∷ rows) =
      when (has_changes c)
        (do when c.rows_deleted (row_delete hash (rec ∷ rows)); rows_changed (rec ∷ rows))
