-- ===== src/Source/Address.antt =====
-- set_source_ip of apps/sourceinterface/src/cli/source_interface_selection_vty.c, with
-- isIpConfigured, source_interface_lookup and the two functions that update a VRF's columns.
use ops_ipapps.Base.{
  Bool, true, false, not, Option, none, some, List, [], ◌∷◌, ◌==◌, suc, if◌then◌else◌, length, Text,
  strncmp_eq,
}
use ops_ipapps.Base.Fault.{◌>>=◌}
use ops_ipapps.Cli.{
  Answer, Ovsdb, cmd_ovsdb_failure, no_default_vrf, not_on_any_interface, failed, told, finish_txn,
}
use ops_ipapps.Cli.Servers.{Port}
use ops_ipapps.Cli.Gateway.{slash, same_up_to, any_same}
use ops_ipapps.Source.{Protocol, ProtocolKeys, key_of, Vrf}

-- What get_default_vrf finds, and the ports.
pub record SourceDb (M : Type 0) : Type 0 where
  pub vrf : Option (Vrf M)
  pub ports : List Port

-- The secondary addresses are read only where there is no primary one.
abbrev has_address : Text → List Text → Option Text → Option Bool
has_address source secondary none = any_same source secondary
has_address source secondary (some address) = same_up_to source address (slash address)

abbrev pub is_ip_configured : Text → List Port → Option Bool
is_ip_configured source [] = some false
is_ip_configured source (port ∷ ports) =
    let rest = is_ip_configured source ports in
    do
      same ← has_address source port.ip4_address_secondary port.ip4_address
      (if same then some true else rest)

abbrev pub source_interface_lookup : Text → List (Text × Text) → Bool
source_interface_lookup key [] = false
source_interface_lookup key ((entry, port) ∷ entries) =
    let rest = source_interface_lookup key entries in
    if strncmp_eq key entry (length key) then true else rest

-- The entries that are copied to the new arrays.
abbrev pub kept : Text → List (Text × Text) → List (Text × Text)
kept key [] = []
kept key ((entry, port) ∷ entries) =
    let rest = kept key entries in
    if strncmp_eq key entry (length key) then rest else (entry, port) ∷ rest

-- The new arrays have one place less than the old ones: `none` where more is written, or a place that
-- was not written is read.
abbrev pub remove_source_interface : Text → List (Text × Text) → Option (List (Text × Text))
remove_source_interface key (entry ∷ []) = some []
remove_source_interface key entries =
    if suc (length (kept key entries)) == length entries then some (kept key entries) else none

module _ {M : Type 0} (keys : ProtocolKeys) (smap_replace : M → Text → Text → M) where
  abbrev replaced : Text → Text → Vrf M → List (Text × Text) → Vrf M
  replaced source key vrf entries = record {
    source_ip = smap_replace vrf.source_ip key source;
    source_interface = entries;
  }

  abbrev pub write_address : Text → Text → Vrf M → Option (Vrf M)
  write_address source key vrf = do
    entries ←
        (if source_interface_lookup key vrf.source_interface
          then remove_source_interface key vrf.source_interface
          else some vrf.source_interface)
    some (replaced source key vrf entries)

  abbrev set_in_vrf :
      Ovsdb (SourceDb M)
      → Text
      → Protocol
      → SourceDb M
      → Option (Vrf M)
      → Option (Answer (SourceDb M))
  set_in_vrf o source type db none =
      some (record { code = cmd_ovsdb_failure; said = some no_default_vrf; db = db })
  set_in_vrf o source type db (some vrf) = do
    configured ← is_ip_configured source db.ports
    (if configured
        then (do
          key ← key_of keys type
          new ← write_address source key vrf
          some (finish_txn o db (record db { vrf = some new })))
        else some (told not_on_any_interface db))

  unfoldable pub set_source_ip :
      Ovsdb (SourceDb M) → Text → Protocol → SourceDb M → Option (Answer (SourceDb M))
  set_source_ip o source type db =
      if not o.started then some (failed db) else set_in_vrf o source type db db.vrf
