-- ===== src/Dhcpv6/Skipped.antt =====
-- A deleted row of an interface with two servers: the first removal moves the second server to the
-- first place, and the second round reads the place that it has left.
use ops_ipapps.Base.{
  ℕ, ◌≡◌, refl, ◌∙◌, ap, Bool, true, false, ◌&&◌, not, Option, none, some, List, [], ◌∷◌, ◌==◌,
  length, Text, strncmp_eq, arith, if_elim, ◌⊎◌, inl, inr,
}
use ops_ipapps.Tables.{compact, push_deleted, or_later}
use ops_ipapps.Tables.Heap.{Cells, cell, write, free, occupied, cell-write, cell-free, cell-eq-none}
use ops_ipapps.Dhcpv6.{
  Server, IntfNode, Tables, compare_server, load_node, is_entry, find_ref, release_entry, remove_at,
  remove_server_ref_entry, remove_found, remove_address, drop_empty,
}
use ops_ipapps.Dhcpv6.Rows.{
  Dhcpv6RelayRow, row_found, load_server, delete_rounds, node_delete, walk, row_delete,
}

strncmp_eq_self : (a : Text) → strncmp_eq a a (length a) ≡ true
strncmp_eq_self [] = refl
strncmp_eq_self (x ∷ a) = ground (arith, strncmp_eq_self a)

compare_server_self : (ip : Text) (egress : Option Text) → compare_server ip ip egress egress ≡ true
unfolding compare_server
compare_server_self ip none = rw (strncmp_eq_self ip) refl
compare_server_self ip (some name) = rw (strncmp_eq_self ip) (strncmp_eq_self name)

-- An interface with two servers.
abbrev pub pair : Text → ℕ → ℕ → List ℕ → IntfNode
pair name p q rest = record { port_name = name; addr_count = 2; server_array = some (p ∷ q ∷ rest) }

module _ (hash : Text → Option Text → ℕ) (np p q : ℕ) (rest : List ℕ) (name : Text) (s : Server)
    (t : Tables) (here : cell np t.nodes ≡ some (pair name p q rest))
    (entry : cell p t.servers ≡ some s) (null : occupied 0 t.servers ≡ 0) where
  -- The node with the place set to NULL, and the node with the second server moved there.
  abbrev nulled : IntfNode
  nulled = pair name 0 q rest

  abbrev moved : IntfNode
  moved = record { port_name = name; addr_count = 1; server_array = some (q ∷ 0 ∷ rest) }

  null_written : (v : Server) → cell 0 (write p v t.servers) ≡ none
  null_written v = ground (arith, cell-write p 0 v s t.servers entry, cell-eq-none 0 t.servers null)

  null_freed : cell 0 (free p t.servers) ≡ none
  null_freed = ground (arith, cell-free p 0 t.servers (omega arith), cell-eq-none 0 t.servers null)

  reload : (m : IntfNode) → cell np (write np m t.nodes) ≡ some m
  reload m = ground (arith, cell-write np np m (pair name p q rest) t.nodes here)

  reload_again : cell np (write np moved (write np nulled t.nodes)) ≡ some moved
  reload_again =
      ground (arith, cell-write np np moved nulled (write np nulled t.nodes) (reload nulled))

  abbrev Outcome : Option (Unit {0} × Tables) → Type 0
  Outcome o =
      (o ≡ none)
      ⊎ ((cs : Cells Server) × (o ≡ some (tt, record t { servers = cs })) × (cell 0 cs ≡ none))

  release_outcome : Outcome (release_entry hash s.ipv6_address s.egress_if_name p (some s) t)
  unfolding release_entry
  release_outcome =
      if_elim Outcome (s.ref_count == 0) _ _ (λ zero_count. inl refl)
        (λ counted.
          if_elim Outcome (not (s.ref_count == 1)) _ _ (λ shared. inr (_, refl, null_written _))
            (λ last.
              if_elim Outcome
                (hash s.ipv6_address s.egress_if_name == hash s.ipv6_address s.egress_if_name) _ _
                (λ same. inr (_, refl, null_freed)) (λ other. inl refl)))

  -- The tables behind the first round.
  abbrev one_left : Cells Server → Tables
  one_left cs = record t { servers = cs; nodes = write np moved (write np nulled t.nodes) }

  one_is_left : (q == 0) && false ≡ false
  one_is_left = ground arith

  Removal : Option (Bool × Tables) → Type 0
  Removal o =
      (o ≡ none) ⊎ ((cs : Cells Server) × (o ≡ some (true, one_left cs)) × (cell 0 cs ≡ none))

  first-Removal : Removal (remove_address hash np s.ipv6_address s.egress_if_name t)
  unfolding Removal remove_address remove_server_ref_entry load_node find_ref is_entry or_later
      remove_at remove_found drop_empty compact push_deleted
  first-Removal = elim release_outcome [
    | inl e ↦
        inl (rw (here, entry, compare_server_self s.ipv6_address s.egress_if_name, entry, e) refl)
    | inr (cs, e, gone) ↦ inr (
      cs,
      rw
          (
            here,
            entry,
            compare_server_self s.ipv6_address s.egress_if_name,
            entry,
            e,
            reload nulled,
            one_is_left,
          )
          refl,
      gone,
    )
  ]

  second_round :
      (cs : Cells Server) → cell 0 cs ≡ none → delete_rounds hash 1 1 np (one_left cs) ≡ none
  unfolding delete_rounds load_node load_server
  second_round cs gone = rw (reload_again, gone) refl

  pub rounds_fault : delete_rounds hash 2 0 np t ≡ none
  unfolding delete_rounds load_node load_server Removal
  rounds_fault = elim first-Removal [
    | inl e ↦ rw (here, entry, e) refl
    | inr (cs, e, gone) ↦ rw (here, entry, e) (second_round cs gone)
  ]

-- If the first name in the table has an allocated interface with two servers, of which the first is
-- allocated, no row is found for the name, and no entry stands at NULL, then the handler faults,
-- whatever the hash is.
pub row_delete-faults :
    (hash : Text → Option Text → ℕ) (rows : List Dhcpv6RelayRow) (name port_name : Text)
    (np p q : ℕ) (rest : List ℕ) (ns : List (Text × ℕ)) (s : Server) (t : Tables)
    → t.names ≡ (name, np) ∷ ns
    → row_found rows name ≡ false
    → cell np t.nodes ≡ some (pair port_name p q rest)
    → cell p t.servers ≡ some s
    → occupied 0 t.servers ≡ 0
    → row_delete hash rows t ≡ none
unfolding row_delete walk node_delete load_node
row_delete-faults hash rows name port_name np p q rest ns s t named missing here entry null =
    ap (λ names. walk hash rows names t) named
    ∙ rw (missing, here, rounds_fault hash np p q rest port_name s t here entry null) refl
