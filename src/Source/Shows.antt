-- ===== src/Source/Shows.antt =====
-- What the listing shows is what the protocols use.
use ops_ipapps.Base.{◌≡◌, refl, if◌then◌else◌, Bool, true, false, Option, some, List, [], ◌∷◌, Text}
use ops_ipapps.Base.Fault.{◌>>=◌}
use ops_ipapps.Cli.{cmd_success}
use ops_ipapps.Source.{
  ProtoSource, Protocol, tftp_protocol, tacacs_protocol, radius_protocol, all_protocol,
  protocol_max, ProtocolKeys, key_of, Vrf, Line, is_all, get_configured_protocol_source_local,
  get_protocol_source_local, print_proto_source, show_source_interface_selection,
}

-- The protocols that a listing is about.
abbrev pub asked_for : Protocol → List Protocol
asked_for all_protocol = tftp_protocol ∷ tacacs_protocol ∷ radius_protocol ∷ []
asked_for type = type ∷ []

prefers :
    (own common : Bool × ProtoSource) (all : Bool)
    → all ≡ false
    → (if own.0 then own.1.source else common.1.source)
      ≡ (if own.0
          then own
          else (if all
              then (false, own.1)
              else (if common.0 then common else (false, common.1)))).1.source
prefers (true, s) common all h = refl
prefers (false, s) common true h = cc
prefers (false, s) (true, c) false h = refl
prefers (false, s) (false, c) false h = refl

module _ {M : Type 0} (keys : ProtocolKeys) (smap_get : M → Text → Option Text)
    (vrf_lookup : Text → Option (Vrf M)) (default_vrf_name : Text) where
  -- A protocol's key and the source that it uses.
  abbrev pub used : Text → Protocol → Option Line
  used vrf_name type = do
    key ← key_of keys type
    some (record {
      key = key;
      source =
          (get_protocol_source_local keys smap_get vrf_lookup default_vrf_name type
            vrf_name).1.source;
    })

  abbrev pub all_used : Text → List Protocol → Option (List Line)
  all_used vrf_name [] = some []
  all_used vrf_name (type ∷ types) = do
    line ← used vrf_name type
    lines ← all_used vrf_name types
    some (line ∷ lines)

  print_proto_source-used :
      (type : Protocol) (vrf_name : Text)
      → is_all type ≡ false
      → print_proto_source keys smap_get vrf_lookup default_vrf_name type default_vrf_name
          (get_configured_protocol_source_local keys smap_get vrf_lookup default_vrf_name
            all_protocol default_vrf_name).1
        ≡ used vrf_name type
  unfolding print_proto_source get_protocol_source_local
  print_proto_source-used type vrf_name other =
      rw
        (prefers
          (get_configured_protocol_source_local keys smap_get vrf_lookup default_vrf_name type
            default_vrf_name)
          (get_configured_protocol_source_local keys smap_get vrf_lookup default_vrf_name
            all_protocol default_vrf_name)
          (is_all type) other)
        refl

  -- The listing gives, for the protocol that it is asked for, or for all three, the source that
  -- get_protocol_source_local gives, or a blank for none: whatever VRF that function is asked about.
  pub show_source_interface_selection-used :
      (type : Protocol) (vrf_name : Text)
      → show_source_interface_selection keys smap_get vrf_lookup default_vrf_name type
        ≡ (do lines ← all_used vrf_name (asked_for type); some (cmd_success, lines))
  unfolding show_source_interface_selection
  show_source_interface_selection-used all_protocol vrf_name =
      rw
        (
          print_proto_source-used tftp_protocol vrf_name refl,
          print_proto_source-used tacacs_protocol vrf_name refl,
          print_proto_source-used radius_protocol vrf_name refl,
        )
        refl
  show_source_interface_selection-used tftp_protocol vrf_name =
      rw (print_proto_source-used tftp_protocol vrf_name refl) refl
  show_source_interface_selection-used tacacs_protocol vrf_name =
      rw (print_proto_source-used tacacs_protocol vrf_name refl) refl
  show_source_interface_selection-used radius_protocol vrf_name =
      rw (print_proto_source-used radius_protocol vrf_name refl) refl
  show_source_interface_selection-used protocol_max vrf_name =
      rw (print_proto_source-used protocol_max vrf_name refl) refl
