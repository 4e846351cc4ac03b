-- ===== src/Source/Effective.antt =====
-- An address that is set is the one that the protocol uses.
use ops_ipapps.Base.{
  ℕ, suc, ◌+◌, ◌≤◌, ◌≡◌, refl, true, Option, some, List, [], ◌∷◌, ◌==◌, if◌then◌else◌, length, Text,
  strncmp_eq, arith, Bool-cases, inl, inr,
}
use ops_ipapps.Cli.{Ovsdb, IsAtomic, committed, finish_txn}
use ops_ipapps.Cli.Outcomes.{done, finish_txn_lem}
use ops_ipapps.Source.{
  Protocol, ProtocolKeys, key_of, Vrf, source_ip, get_configured_protocol_source_local,
  get_protocol_source_local,
}
use ops_ipapps.Source.Address.{
  SourceDb, is_ip_configured, source_interface_lookup, kept, remove_source_interface, write_address,
  set_source_ip,
}

-- How many entries have a key that starts with the given one.
abbrev pub entries_of : Text → List (Text × Text) → ℕ
entries_of key [] = 0
entries_of key ((entry, port) ∷ entries) =
    let rest = entries_of key entries in
    if strncmp_eq key entry (length key) then suc rest else rest

length-kept :
    (key : Text) (entries : List (Text × Text))
    → length (kept key entries) + entries_of key entries ≡ length entries
length-kept key [] = refl
length-kept key ((entry, port) ∷ entries) = ground (arith, length-kept key entries)

entries_of-found :
    (key : Text) (entries : List (Text × Text))
    → source_interface_lookup key entries ≡ true
    → 1 ≤ entries_of key entries
entries_of-found key [] h = cc
entries_of-found key ((entry, port) ∷ entries) h = ground (arith, entries_of-found key entries)

remove_once :
    (key : Text) (entries : List (Text × Text))
    → entries_of key entries ≡ 1
    → (left : List (Text × Text)) × (remove_source_interface key entries ≡ some left)
remove_once key [] h = cc
remove_once key (e ∷ []) h = ([], refl)
remove_once key (e ∷ f ∷ entries) h =
    let sum = length-kept key (e ∷ f ∷ entries) in
    let fits : (suc (length (kept key (e ∷ f ∷ entries))) == length (e ∷ f ∷ entries)) ≡ true =
      ground arith in
    (kept key (e ∷ f ∷ entries), simp fits refl)

module _ {M : Type 0} (keys : ProtocolKeys) (smap_get : M → Text → Option Text)
    (smap_replace : M → Text → Text → M) where
  write_address_lem :
      (source key : Text) (vrf : Vrf M)
      → entries_of key vrf.source_interface ≤ 1
      → (new : Vrf M) × (write_address keys smap_replace source key vrf ≡ some new)
        × (new.source_ip ≡ smap_replace vrf.source_ip key source)
  write_address_lem source key vrf few =
      elim (Bool-cases (source_interface_lookup key vrf.source_interface)) [
        | inl found ↦
            let some_entry = entries_of-found key vrf.source_interface found in
            let (left, removed) = remove_once key vrf.source_interface (omega arith) in
            (
              record { source_ip = smap_replace vrf.source_ip key source; source_interface = left },
              simp (found, removed) refl,
              refl,
            )
        | inr absent ↦ (
          record {
            source_ip = smap_replace vrf.source_ip key source;
            source_interface = vrf.source_interface;
          },
          simp absent refl,
          refl,
        )
      ]

  uses_address :
      (vrf_lookup : Text → Option (Vrf M)) (default_vrf_name : Text) (type : Protocol)
      (vrf_name key source : Text) (vrf : Vrf M)
      → key_of keys type ≡ some key
      → vrf_lookup default_vrf_name ≡ some vrf
      → smap_get vrf.source_ip key ≡ some source
      → get_protocol_source_local keys smap_get vrf_lookup default_vrf_name type vrf_name
        ≡ (true, record { source = some source; config_type = source_ip })
  unfolding get_protocol_source_local get_configured_protocol_source_local
  uses_address vrf_lookup default_vrf_name type vrf_name key source vrf named found got =
      rw (named, found, got) refl

  -- "ip source-interface ... A.B.C.D" with an address that isIpConfigured finds, for a protocol of the array
  -- with at most one entry among the source interfaces, on a VRF, when the transaction is taken:
  -- it succeeds and says nothing, and the address is then the source that get_protocol_source_local
  -- gives for the protocol.
  pub set_source_ip-Uses :
      (o : Ovsdb (SourceDb M)) (vrf_lookup : SourceDb M → Text → Option (Vrf M))
      (default_vrf_name source : Text) (type : Protocol) (key : Text) (db : SourceDb M)
      (vrf : Vrf M) (vrf_name : Text)
      → ((m : M) (k v : Text) → smap_get (smap_replace m k v) k ≡ some v)
      → ((d : SourceDb M) → vrf_lookup d default_vrf_name ≡ d.vrf)
      → IsAtomic o
      → o.started ≡ true
      → ((new : SourceDb M) → committed (o.finish db new).0 ≡ true)
      → db.vrf ≡ some vrf
      → is_ip_configured source db.ports ≡ some true
      → key_of keys type ≡ some key
      → entries_of key vrf.source_interface ≤ 1
      → (after : SourceDb M) × (set_source_ip keys smap_replace o source type db
          ≡ some (done after))
        × (get_protocol_source_local keys smap_get (vrf_lookup after) default_vrf_name type vrf_name
            ≡ (true, record { source = some source; config_type = source_ip }))
  unfolding set_source_ip
  set_source_ip-Uses o vrf_lookup default_vrf_name source type key db vrf vrf_name get_replace
        default atomic started taken has configured named few =
      let (new, written, address) = write_address_lem source key vrf few in
      let after : SourceDb M = record db { vrf = some new } in
      let ends : finish_txn o db after ≡ done after =
        rw (finish_txn_lem o db after atomic, taken after) refl in
      (
        after,
        simp (started, has, configured, named, written, ends) refl,
        uses_address (vrf_lookup after) default_vrf_name type vrf_name key source new named
            (default after) (rw address (get_replace vrf.source_ip key source)),
      )
