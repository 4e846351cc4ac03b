-- ===== src/Rows/Dispatch.antt =====
-- relay/udpfwd/src/udpfwd.c: which handlers a change of the two tables of servers calls.
use ops_ipapps.Base.{ℕ, Bool, true, false, ◌&&◌, not, Option, List, [], ◌∷◌, Text}
use ops_ipapps.Base.Run.{StateRun}
use ops_ipapps.Tables.{Allocator, Run, pure, ◌>>◌}
use ops_ipapps.Rows.{
  DhcpRelayRow, BcastForwarderRow, dhcp_relay_row_delete, udp_bcast_forwarder_row_delete,
}
use ops_ipapps.Rows.Change.{dhcp_relay_config_change, udp_bcast_forwarder_config_change}

-- The table's change counters against idl_seqno.
pub record TableChanges : Type 0 where
  pub rows_inserted : Bool
  pub rows_deleted : Bool
  pub rows_modified : Bool

abbrev pub when : {S : Type 0} → Bool → StateRun S (Unit {0}) → StateRun S (Unit {0})
when false m = pure tt
when true m = m

abbrev pub has_changes : TableChanges → Bool
has_changes c = not (not c.rows_inserted && not c.rows_deleted && not c.rows_modified)

module _ (inet_aton : Text → Option ℕ) (a : Allocator) where
  unfoldable pub relay_rows_changed : List DhcpRelayRow → Run (Unit {0})
  relay_rows_changed [] = pure tt
  relay_rows_changed (rec ∷ rows) = do
    when rec.changed (dhcp_relay_config_change inet_aton a rec)
    relay_rows_changed rows

  unfoldable pub dhcp_relay_server_config_update : TableChanges → List DhcpRelayRow → Run (Unit {0})
  unfolding relay_rows_changed
  dhcp_relay_server_config_update c [] = dhcp_relay_row_delete []
  dhcp_relay_server_config_update c (rec ∷ rows) =
      when (has_changes c) (do
        when c.rows_deleted (dhcp_relay_row_delete (rec ∷ rows))
        relay_rows_changed (rec ∷ rows))

  unfoldable pub bcast_rows_changed : List BcastForwarderRow → Run (Unit {0})
  bcast_rows_changed [] = pure tt
  bcast_rows_changed (rec ∷ rows) = do
    when rec.changed (udp_bcast_forwarder_config_change inet_aton a rec)
    bcast_rows_changed rows

  unfoldable pub udp_bcast_forwarder_server_config_update :
      TableChanges → List BcastForwarderRow → Run (Unit {0})
  unfolding bcast_rows_changed
  udp_bcast_forwarder_server_config_update c [] = udp_bcast_forwarder_row_delete inet_aton []
  udp_bcast_forwarder_server_config_update c (rec ∷ rows) = when (has_changes c) (do
    when c.rows_deleted (udp_bcast_forwarder_row_delete inet_aton (rec ∷ rows))
    bcast_rows_changed (rec ∷ rows))
