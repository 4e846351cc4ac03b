-- ===== src/Rows/Reachable.antt =====
-- The tables that the daemon's operations reach from empty ones.
use ops_ipapps.Base.{
  ℕ, ◌≡◌, refl, ◌∙◌, subst, Bool, true, false, Option, none, some, [], ◌∷◌, arith, Text,
}
use ops_ipapps.Tables.{IntfNode, Tables, Allocator, addresses, load_node, remove_address}
use ops_ipapps.Tables.Store.{store_address}
use ops_ipapps.Tables.Heap.{cell, write, occupied}
use ops_ipapps.Tables.Valid.{refs, entries, IsValid, AllShaped-cell}
use ops_ipapps.Tables.Entries.{IsSound, occupied-count}
use ops_ipapps.Tables.Share.{HasRoom}
use ops_ipapps.Tables.Relabel.{relabelled-IsValid}
use ops_ipapps.Tables.StoreAddress.{store_address-Stores}
use ops_ipapps.Tables.RemoveAddress.{remove_address-Removes}
use ops_ipapps.Rows.Change.{
  new_node, insert_node, create_intferface_node, set_bootp_gw, bootp_gateway_of,
}

abbrev pub no_tables : Tables
no_tables = record { servers = []; nodes = []; names = [] }

-- Each step is a call that has returned; a server is stored while no reference count is at its
-- greatest value.
pub data Reachable (inet_aton : Text → Option ℕ) (alloc : Allocator) : Tables → Type 0 where
  start : Reachable inet_aton alloc no_tables
  created :
      (name : Text) (o : Option ℕ) (t t' : Tables)
      → Reachable inet_aton alloc t
      → create_intferface_node inet_aton alloc name t ≡ some (o, t')
      → Reachable inet_aton alloc t'
  configured :
      (gateway : Option Text) (np : ℕ) (n : IntfNode) (t t' : Tables)
      → Reachable inet_aton alloc t
      → cell np t.nodes ≡ some n
      → set_bootp_gw inet_aton alloc true gateway np t ≡ some (tt, t')
      → Reachable inet_aton alloc t'
  stored :
      (np ip port : ℕ) (n : IntfNode) (b : Bool) (t t' : Tables)
      → Reachable inet_aton alloc t
      → HasRoom t
      → cell np t.nodes ≡ some n
      → store_address alloc np ip port t ≡ some (b, t')
      → Reachable inet_aton alloc t'
  removed :
      (np ip port : ℕ) (n : IntfNode) (b : Bool) (t t' : Tables)
      → Reachable inet_aton alloc t
      → cell np t.nodes ≡ some n
      → remove_address np ip port t ≡ some (b, t')
      → Reachable inet_aton alloc t'

no_tables-IsValid : IsValid no_tables
unfolding refs cell occupied entries
no_tables-IsValid = record {
  counted = λ a. refl;
  positive = tt;
  shaped = tt;
  distinct_servers = λ a. omega arith;
  distinct_nodes = λ a. omega arith;
  null_server = refl;
  unique = λ ip port. omega arith;
}

insert_node-IsValid :
    (name : Text) (p : Option ℕ) (memory : Bool) (o : Option ℕ) (t t' : Tables)
    → ((q : ℕ) → p ≡ some q → occupied q t.nodes ≡ 0)
    → IsValid t
    → insert_node p memory name t ≡ some (o, t')
    → IsValid t'
unfolding insert_node refs occupied
insert_node-IsValid name none memory o t t' fresh v e =
    subst IsValid (let same : t ≡ t' = cc in same) v
insert_node-IsValid name (some p) false o t t' fresh v e =
    subst IsValid (let same : t ≡ t' = cc in same) v
insert_node-IsValid name (some p) true o t t' fresh v e =
    subst IsValid
      (let same : record t { nodes = (p, new_node name) ∷ t.nodes; names = (name, p) ∷ t.names }
            ≡ t' =
          cc in
        same)
      (record {
        counted = λ a. omega (arith, v.counted a);
        positive = v.positive;
        shaped = (refl, v.shaped);
        distinct_servers = v.distinct_servers;
        distinct_nodes =
            λ a. let free_place = fresh p refl in let d = v.distinct_nodes a in ground arith;
        null_server = v.null_server;
        unique = v.unique;
      })

-- In tables that are reached with a sound heap, every reference count is the number of references,
-- no entry is kept without one, and every interface has at most 16 servers, in an array of 16.
pub Reachable-IsValid :
    (inet_aton : Text → Option ℕ) (alloc : Allocator) (t : Tables)
    → IsSound alloc
    → Reachable inet_aton alloc t
    → IsValid t
unfolding create_intferface_node set_bootp_gw load_node
Reachable-IsValid inet_aton alloc t sound start = no_tables-IsValid
Reachable-IsValid inet_aton alloc _ sound (created name o t t' h e) =
    insert_node-IsValid name (alloc.malloc (addresses t.nodes)) (alloc.calloc_name t) o t t'
      (λ q f. let (ne, out) = sound.fresh (addresses t.nodes) q f in occupied-count q t.nodes ∙ out)
      (Reachable-IsValid inet_aton alloc t sound h) e
Reachable-IsValid inet_aton alloc _ sound (configured gateway np n t t' h here e) =
    let v = Reachable-IsValid inet_aton alloc t sound h in
    let n' : IntfNode = record n {
      bootp_gw = bootp_gateway_of inet_aton alloc gateway n.bootp_gw;
    } in
    let ran : set_bootp_gw inet_aton alloc true gateway np t
        ≡ some (tt, record t { nodes = write np n' t.nodes }) =
      rw here refl in
    let same : record t { nodes = write np n' t.nodes } ≡ t' = cc in
    subst IsValid same
      (relabelled-IsValid np n n' t v here refl (AllShaped-cell np n t.nodes v.shaped here))
Reachable-IsValid inet_aton alloc _ sound (stored np ip port n b t t' h room here e) =
    let v = Reachable-IsValid inet_aton alloc t sound h in
    let (r, f, s) = store_address-Stores alloc np ip port n t sound v room here in
    let same : r ≡ (b, t') = cc in subst (λ (r : Bool × Tables). IsValid r.1) same s.valid
Reachable-IsValid inet_aton alloc _ sound (removed np ip port n b t t' h here e) =
    let v = Reachable-IsValid inet_aton alloc t sound h in
    let (r, f, d) = remove_address-Removes np ip port n t v here in
    let same : r ≡ (b, t') = cc in subst (λ (r : Bool × Tables). IsValid r.1) same d.valid
