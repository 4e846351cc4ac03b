-- ===== src/Source.antt =====
-- Which source address or interface a protocol uses, and what "show ip source-interface" prints:
-- get_configured_protocol_source_local, get_protocol_source_local, print_proto_source and
-- show_source_interface_selection of apps/sourceinterface/src/cli/source_interface_selection_vty.c.
pub mod Shows
pub mod Address
pub mod Effective
pub mod Tests
use ops_ipapps.Base.{
  Bool, true, false, Option, none, some, List, [], ◌∷◌, if◌then◌else◌, length, Text, strncmp_eq,
}
use ops_ipapps.Base.Fault.{◌>>=◌}
use ops_ipapps.Cli.{CmdResult, cmd_success}

pub data ConfigType : Type 0 where
  source_ip source_interface source_max : ConfigType

pub data Protocol : Type 0 where
  tftp_protocol tacacs_protocol radius_protocol all_protocol protocol_max : Protocol

pub record ProtoSource : Type 0 where
  pub source : Option Text
  pub config_type : ConfigType

-- protocol_keys[]; its four texts come from the schema.
pub record ProtocolKeys : Type 0 where
  pub tftp : Text
  pub tacacs : Text
  pub radius : Text
  pub all : Text

-- `none` for an index past the array.
abbrev pub key_of : ProtocolKeys → Protocol → Option Text
key_of keys tftp_protocol = some keys.tftp
key_of keys tacacs_protocol = some keys.tacacs
key_of keys radius_protocol = some keys.radius
key_of keys all_protocol = some keys.all
key_of keys protocol_max = none

-- The columns of a VRF: addresses by key, and keys with the names of ports.
pub record Vrf (M : Type 0) : Type 0 where
  pub source_ip : M
  pub source_interface : List (Text × Text)

-- A line of the listing: a key, and a source or a blank.
pub record Line : Type 0 where
  pub key : Text
  pub source : Option Text

-- The first entry whose key starts with the given one.
abbrev pub find_interface : Text → List (Text × Text) → Option Text
find_interface key [] = none
find_interface key ((entry, port) ∷ entries) =
    let rest = find_interface key entries in
    if strncmp_eq key entry (length key) then some port else rest

abbrev pub no_source : ProtoSource
no_source = record { source = none; config_type = source_max }

abbrev pub is_all : Protocol → Bool
is_all all_protocol = true
is_all _ = false

-- The keys, smap_get on the column of addresses, vrf_lookup, and the name of the default VRF.
module _ {M : Type 0} (keys : ProtocolKeys) (smap_get : M → Text → Option Text)
    (vrf_lookup : Text → Option (Vrf M)) (default_vrf_name : Text) where
  abbrev source_of_interface : Option Text → Bool × ProtoSource
  source_of_interface none = (false, no_source)
  source_of_interface (some name) =
      (true, record { source = some name; config_type = source_interface })

  abbrev source_of_vrf : Text → Vrf M → Option Text → Bool × ProtoSource
  source_of_vrf key vrf (some address) =
      (true, record { source = some address; config_type = source_ip })
  source_of_vrf key vrf none = source_of_interface (find_interface key vrf.source_interface)

  abbrev source_of_key : Option Text → Option (Vrf M) → Bool × ProtoSource
  source_of_key none vrf = (false, no_source)
  source_of_key (some key) none = (false, no_source)
  source_of_key (some key) (some vrf) = source_of_vrf key vrf (smap_get vrf.source_ip key)

  -- What the function leaves in *proto_source, whatever was there; no caller passes NULL.
  unfoldable pub get_configured_protocol_source_local : Protocol → Text → Bool × ProtoSource
  get_configured_protocol_source_local type vrf_name =
      source_of_key (key_of keys type) (vrf_lookup vrf_name)

  unfoldable pub get_protocol_source_local : Protocol → Text → Bool × ProtoSource
  get_protocol_source_local type vrf_name =
      let own = get_configured_protocol_source_local type default_vrf_name in
      let common = get_configured_protocol_source_local all_protocol default_vrf_name in
      if own.0
      then own
      else (if is_all type
          then (false, own.1)
          else (if common.0 then common else (false, common.1)))

  abbrev printed : Bool × ProtoSource → ProtoSource → Option Text
  printed own common = if own.0 then own.1.source else common.source

  unfoldable pub print_proto_source : Protocol → Text → ProtoSource → Option Line
  print_proto_source type vrf_name common = do
    key ← key_of keys type
    some (record {
      key = key;
      source = printed (get_configured_protocol_source_local type vrf_name) common;
    })

  -- The lines below the heading; `none` for a read past protocol_keys.
  unfoldable pub show_source_interface_selection : Protocol → Option (CmdResult × List Line)
  show_source_interface_selection type =
      let common = (get_configured_protocol_source_local all_protocol default_vrf_name).1 in
      if is_all type
      then (do
        tftp ← print_proto_source tftp_protocol default_vrf_name common
        tacacs ← print_proto_source tacacs_protocol default_vrf_name common
        radius ← print_proto_source radius_protocol default_vrf_name common
        some (cmd_success, tftp ∷ tacacs ∷ radius ∷ []))
      else (do
        line ← print_proto_source type default_vrf_name common
        some (cmd_success, line ∷ []))
