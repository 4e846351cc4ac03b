-- ===== src/Source/Tests.antt =====
-- The source interface listing on a concrete VRF.
use ops_ipapps.Base.{◌≡◌, refl, true, arith, Option, none, some, List, [], ◌∷◌, if◌then◌else◌, Text}
use ops_ipapps.Base.Fault.{◌>>=◌}
use ops_ipapps.Relay.{same_text}
use ops_ipapps.Cli.{cmd_success}
use ops_ipapps.Cli.Outcomes.{done}
use ops_ipapps.Cli.Tests.{takes_all, takes_all-IsAtomic}
use ops_ipapps.Cli.ServerConfig.Totals.{same_text_refl}
use ops_ipapps.Source.{
  tftp_protocol, tacacs_protocol, all_protocol, source_ip, source_interface, ProtocolKeys, Vrf,
  get_configured_protocol_source_local, get_protocol_source_local, print_proto_source,
  show_source_interface_selection,
}
use ops_ipapps.Source.Address.{SourceDb, set_source_ip}
use ops_ipapps.Source.Effective.{set_source_ip-Uses}
use ops_ipapps.Source.Shows.{asked_for, all_used, show_source_interface_selection-used}

abbrev keys : ProtocolKeys
keys = record {
  tftp = b't' ∷ b'f' ∷ [];
  tacacs = b't' ∷ b'a' ∷ [];
  radius = b'r' ∷ [];
  all = b'a' ∷ [];
}

abbrev Pairs : Type 0
Pairs = List (Text × Text)

abbrev lookup : Pairs → Text → Option Text
lookup [] key = none
lookup ((k, v) ∷ pairs) key =
    let rest = lookup pairs key in if same_text k key then some v else rest

-- An address for TFTP, and an interface for all protocols.
abbrev vrf : Vrf Pairs
vrf = record {
  source_ip = (keys.tftp, b'1' ∷ []) ∷ [];
  source_interface = (keys.all, b'e' ∷ []) ∷ [];
}

abbrev default_name : Text
default_name = b'd' ∷ []

abbrev other_name : Text
other_name = b'x' ∷ []

abbrev vrfs : Text → Option (Vrf Pairs)
vrfs name = if same_text name default_name then some vrf else none

tacacs_source :
    get_protocol_source_local keys lookup vrfs default_name tacacs_protocol other_name
    ≡ (true, record { source = some (b'e' ∷ []); config_type = source_interface })
unfolding get_protocol_source_local get_configured_protocol_source_local
tacacs_source = refl

listing :
    show_source_interface_selection keys lookup vrfs default_name tftp_protocol
    ≡ some (cmd_success, record { key = keys.tftp; source = some (b'1' ∷ []) } ∷ [])
unfolding show_source_interface_selection print_proto_source get_configured_protocol_source_local
listing = refl

show_source_interface_selection-used_example :
    show_source_interface_selection keys lookup vrfs default_name all_protocol ≡ (do
      lines ← all_used keys lookup vrfs default_name other_name (asked_for all_protocol)
      some (cmd_success, lines))
show_source_interface_selection-used_example =
    show_source_interface_selection-used keys lookup vrfs default_name all_protocol other_name

abbrev put : Pairs → Text → Text → Pairs
put pairs key value = (key, value) ∷ pairs

lookup-put : (pairs : Pairs) (key value : Text) → lookup (put pairs key value) key ≡ some value
lookup-put pairs key value = rw (same_text_refl key) refl

-- A VRF with an interface for TACACS, and a port that has the address 1.
abbrev tacacs_vrf : Vrf Pairs
tacacs_vrf = record vrf { source_interface = (keys.tacacs, b'e' ∷ []) ∷ [] }

abbrev db : SourceDb Pairs
db = record {
  vrf = some tacacs_vrf;
  ports =
      record {
        name = b'e' ∷ [];
        ip4_address = some (b'1' ∷ b'/' ∷ b'8' ∷ []);
        ip4_address_secondary = [];
      }
      ∷ [];
}

abbrev default_only : SourceDb Pairs → Text → Option (Vrf Pairs)
default_only d name = d.vrf

set_source_ip-Uses_example :
    (after : SourceDb Pairs) × (set_source_ip keys put takes_all (b'1' ∷ []) tacacs_protocol db
      ≡ some (done after))
    × (get_protocol_source_local keys lookup
          (default_only after)
          default_name
          tacacs_protocol
          other_name
        ≡ (true, record { source = some (b'1' ∷ []); config_type = source_ip }))
set_source_ip-Uses_example =
    set_source_ip-Uses keys lookup put takes_all default_only default_name (b'1' ∷ [])
      tacacs_protocol keys.tacacs db tacacs_vrf other_name lookup-put (λ d. refl) takes_all-IsAtomic
      refl (λ new. refl) refl refl refl (omega arith)
