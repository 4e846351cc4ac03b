-- ===== src/Tables/StoreAddress.antt =====
-- udpfwd_store_address adds a server to an interface, and keeps the tables valid.
use ops_ipapps.Base.{
  ℕ, ◌+◌, ◌%◌, ◌^◌, ◌<◌, ◌≤◌, ◌≡◌, refl, ◌∙◌, sym, ap, subst, Bool, true, false, not, Option, none,
  some, List, [], ◌==◌, leb, length, arith, if_elim, inl, inr, ◌⊎◌,
}
use ops_ipapps.Tables.{IntfNode, Tables, Allocator, max_servers, load_node, set_pointer, addresses}
use ops_ipapps.Tables.Store.{
  append_pointer, store_in, with_array, store_by_array, store_below_limit, store_address,
}
use ops_ipapps.Tables.Heap.{cell, write}
use ops_ipapps.Tables.Valid.{live, IsBlock, ref_count_of, IsShaped, IsValid, AllShaped-cell}
use ops_ipapps.Tables.Entries.{IsSound}
use ops_ipapps.Tables.Share.{Shares, shared, no_memory, HasRoom, share_lem}
use ops_ipapps.Tables.Relabel.{
  relabelled, relabelled-IsValid, servers_at-relabelled, cell-relabelled,
}
use ops_ipapps.Tables.View.{servers_at}
use ops_ipapps.Tables.Appended.{Reason, after, after-Stores, Stores, Returns, with_server}

-- Why a server is not stored: the interface has 16 already, or there is no memory.
abbrev pub Refused : Allocator → IntfNode → Tables → Type 0
Refused alloc n t =
    (max_servers ≤ n.addr_count)
    ⊎ ((alloc.malloc (addresses t.servers) ≡ none) ⊎ (alloc.malloc_array t ≡ none))

unchanged-Stores :
    (Why : Type 0) (np ip port : ℕ) (n : IntfNode) (t : Tables)
    → IsValid t
    → cell np t.nodes ≡ some n
    → Why
    → Stores Why np ip port n t (false, t)
unchanged-Stores Why np ip port n t v here why = record {
  valid = v;
  names = refl;
  servers = λ q. refl;
  reason = why;
  node = (n, here, omega arith);
  grows = λ a. omega arith;
}

Reason-map : {Why Why' : Type 0} (b : Bool) → (Why → Why') → Reason Why b → Reason Why' b
Reason-map true f why = tt
Reason-map false f why = f why

no_live : (n : IntfNode) → n.server_array ≡ none → IsShaped n → live n ≡ []
no_live n empty shape =
    let z : n.addr_count ≡ 0 = subst (λ o. IsBlock o n.addr_count) empty shape in simp (empty, z)

-- Another node at the same place, with as many servers.
Stores-through :
    {Why Why' : Type 0} (np ip port : ℕ) (n n₂ : IntfNode) (t t₂ : Tables) (r : Bool × Tables)
    → (Why → Why')
    → t₂.names ≡ t.names
    → t₂.servers ≡ t.servers
    → n₂.addr_count ≡ n.addr_count
    → ((q : ℕ) → servers_at t₂ q ≡ servers_at t q)
    → Stores Why np ip port n₂ t₂ r
    → Stores Why' np ip port n t r
Stores-through np ip port n n₂ t t₂ r f names cells size same s = record {
  valid = s.valid;
  names = s.names ∙ names;
  servers = λ q. s.servers q ∙ through r.0 q;
  reason = Reason-map r.0 f s.reason;
  node = let (m, e, k) = s.node in (m, e, omega arith);
  grows = λ a. omega (arith, s.grows a, ap (λ cs. ref_count_of (cell a cs)) cells);
}
  where
    through :
        (b : Bool) (q : ℕ) → with_server b np (ip, port) t₂ q ≡ with_server b np (ip, port) t q
    through false q = same q
    through true q = rw (same q) refl

module _ (alloc : Allocator) (sound : IsSound alloc) (np ip port : ℕ) (n : IntfNode) (t : Tables)
    (v : IsValid t) (here : cell np t.nodes ≡ some n) (room : HasRoom t) where
  abbrev NoServer : Type 0
  NoServer = alloc.malloc (addresses t.servers) ≡ none

  store_in-Stores :
      (array : List ℕ)
      → n.server_array ≡ some array
      → length array ≡ max_servers
      → n.addr_count < max_servers
      → Returns NoServer np ip port n t (store_in alloc np ip port n t)
  unfolding store_in append_pointer
  store_in-Stores array held len lt =
      let (r, e, outcome) = share_lem alloc sound ip port t v room in rw e (finish r outcome)
    where
      finish :
          (r : Option ℕ × Tables)
          → Shares alloc ip port t r
          → Returns NoServer np ip port n t (append_pointer alloc np n r.0 r.1)
      finish r (no_memory why) = (_, refl, unchanged-Stores NoServer np ip port n t v here why)
      finish r (shared p cs s) = (
        (true, after NoServer np ip port p cs array n t v here held len lt s),
        ap
            (λ (o : Option (List ℕ)). some (
              true,
              record t {
                servers = cs;
                nodes =
                    write np
                      (record n { server_array = o; addr_count = (n.addr_count + 1) % 2 ^ 8 })
                      t.nodes;
              },
            ))
            (ap (set_pointer n.addr_count p) held),
        after-Stores NoServer np ip port p cs array n t v here held len lt s,
      )

module _ (alloc : Allocator) (sound : IsSound alloc) (np ip port : ℕ) (n : IntfNode) (t : Tables)
    (v : IsValid t) (here : cell np t.nodes ≡ some n) (room : HasRoom t) where
  with_array-Stores :
      (o : Option (List ℕ))
      → alloc.malloc_array t ≡ o
      → n.server_array ≡ none
      → Returns (Refused alloc n t) np ip port n t (with_array alloc np ip port n o t)
  unfolding with_array
  with_array-Stores none e empty =
      let shape = AllShaped-cell np n t.nodes v.shaped here in
      let zero_count : n.addr_count ≡ 0 = subst (λ o. IsBlock o n.addr_count) empty shape in
      let n' : IntfNode = record n { addr_count = 0 } in
      let shape' : IsShaped n' = rw empty refl in
      let same : live n' ≡ live n = no_live n' empty shape' ∙ sym (no_live n empty shape) in
      (
        (false, relabelled np n n' t v here same),
        refl,
        record {
          valid = relabelled-IsValid np n n' t v here same shape';
          names = refl;
          servers = servers_at-relabelled np n n' t v here same;
          reason = inr (inr e);
          node = (n', cell-relabelled np n n' t v here same, omega arith);
          grows = λ a. omega arith;
        },
      )
  with_array-Stores (some array) e empty =
      let shape = AllShaped-cell np n t.nodes v.shaped here in
      let zero_count : n.addr_count ≡ 0 = subst (λ o. IsBlock o n.addr_count) empty shape in
      let n' : IntfNode = record n { addr_count = 0; server_array = some array } in
      let same : live n' ≡ live n = sym (no_live n empty shape) in
      let len = sound.block t array e in
      let t₂ = relabelled np n n' t v here same in
      let v₂ = relabelled-IsValid np n n' t v here same (len, omega arith) in
      let (r, returned, s) =
        store_in-Stores alloc sound np ip port n' t₂ v₂ (cell-relabelled np n n' t v here same) room
          array refl len (omega arith) in
      (
        r,
        returned,
        Stores-through np ip port n n' t t₂ r (λ why. inr (inl why)) refl refl (sym zero_count)
            (servers_at-relabelled np n n' t v here same) s,
      )

  store_by_array-Stores :
      (o : Option (List ℕ))
      → n.server_array ≡ o
      → n.addr_count < max_servers
      → Returns (Refused alloc n t) np ip port n t (store_by_array alloc np ip port n o t)
  unfolding store_by_array
  store_by_array-Stores (some array) e lt =
      let shape = AllShaped-cell np n t.nodes v.shaped here in
      let (len, le) = subst (λ o. IsBlock o n.addr_count) e shape in
      let (r, returned, s) =
        store_in-Stores alloc sound np ip port n t v here room array e len lt in
      (
        r,
        returned,
        Stores-through np ip port n n t t r (λ why. inr (inl why)) refl refl refl (λ q. refl) s,
      )
  store_by_array-Stores none e lt =
      let zero_count : n.addr_count ≡ 0 =
        subst (λ o. IsBlock o n.addr_count) e (AllShaped-cell np n t.nodes v.shaped here) in
      if_elim (λ o. Returns (Refused alloc n t) np ip port n t o) (not (n.addr_count == 0)) _ _
        (λ busy. absurd (ground arith)) (λ idle. with_array-Stores (alloc.malloc_array t) refl e)

-- In valid tables whose reference counts have room for one more, a call on an allocated interface
-- node returns, and leaves valid tables. If it returns true, the interface has the server behind
-- those that it had; if it returns false, it has those that it had. The other interfaces have the
-- servers that they had, and the names are the same. It returns false only if the interface has 16
-- servers, or the memory for an entry or for the array is missing.
pub store_address-Stores :
    (alloc : Allocator) (np ip port : ℕ) (n : IntfNode) (t : Tables)
    → IsSound alloc
    → IsValid t
    → HasRoom t
    → cell np t.nodes ≡ some n
    → (r : Bool × Tables) × (store_address alloc np ip port t ≡ some r)
      × Stores (Refused alloc n t) np ip port n t r
unfolding store_address load_node store_below_limit
store_address-Stores alloc np ip port n t sound v room here = rw here (
    if_elim (λ o. Returns (Refused alloc n t) np ip port n t o) (leb max_servers n.addr_count) _ _
      (λ full.
        (_, refl, unchanged-Stores (Refused alloc n t) np ip port n t v here (inl (ground arith))))
      (λ below.
        store_by_array-Stores alloc sound np ip port n t v here room n.server_array refl
          (ground arith)))
