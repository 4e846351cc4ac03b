-- ===== src/Tables/RemoveAddress.antt =====
-- udpfwd_remove_address takes one reference to a server from an interface, and keeps the tables valid.
use ops_ipapps.Base.{
  ℕ, ◌-◌, ◌<◌, ◌≤◌, ◌≡◌, refl, ◌∙◌, sym, ap, subst, Bool, true, false, Option, none, some, List, [],
  length, set, get_elem?, arith, Option-cases, inl, inr,
}
use ops_ipapps.Tables.{
  ServerEntry, IntfNode, Tables, take, pointers, max_servers, set_pointer, load_node, and_then,
  remove_at, release, remove_server_ref_entry, compact, drop_empty, remove_found, remove_address,
}
use ops_ipapps.Tables.Heap.{Cells, cell, write, cell-write}
use ops_ipapps.Tables.Arrays.{get_elem?-take, length-take}
use ops_ipapps.Tables.Compact.{get_elem?-lt, compact_lem}
use ops_ipapps.Tables.Valid.{live, refs-le, IsBlock, AllShaped-cell, IsValid}
use ops_ipapps.Tables.View.{live-cell}
use ops_ipapps.Tables.Tally.{sum_over, hit, has_key, live_of, serves}
use ops_ipapps.Tables.Release.{Found, found, missing, find_ref_lem, release_lem}
use ops_ipapps.Tables.Dropped.{drop_lem}
use ops_ipapps.Tables.AfterRemoval.{Removes, dropped-Removes}

abbrev Removed : ℕ → ℕ → ℕ → IntfNode → Tables → Option (Bool × Tables) → Type 0
Removed np ip port n t o = (r : Bool × Tables) × (o ≡ some r) × Removes np ip port n t r

module _ (np ip port : ℕ) (n : IntfNode) (t : Tables) (v : IsValid t)
    (here : cell np t.nodes ≡ some n) where
  missing-Removes :
      sum_over (λ a. hit (cell a t.servers) ip port) (live n) ≡ 0
      → Removes np ip port n t (false, t)
  unfolding serves
  missing-Removes z = record {
    valid = v;
    answer =
        let none_there : serves t np ip port ≡ 0 =
          ap (λ o. sum_over (λ a. hit (cell a t.servers) ip port) (live_of o)) here ∙ z in
        rw none_there refl;
    servers = λ q i u. omega arith;
    others = λ q ne. refl;
    fewer = λ a. omega arith;
    node = here;
    names = refl;
  }

  module _ (i p : ℕ) (s : ServerEntry) (ps : List ℕ) (held : n.server_array ≡ some ps)
      (at : get_elem? (live n) i ≡ some p) (entry : cell p t.servers ≡ some s)
      (key : has_key (cell p t.servers) ip port ≡ true) where
    abbrev last : ℕ
    last = n.addr_count - 1

    at_array : get_elem? (take n.addr_count ps) i ≡ some p
    at_array = subst (λ o. get_elem? (pointers o n.addr_count) i ≡ some p) held at

    block : (length ps ≡ max_servers) × (n.addr_count ≤ max_servers)
    block = subst (λ o. IsBlock o n.addr_count) held (AllShaped-cell np n t.nodes v.shaped here)

    before : i < n.addr_count
    before = omega (
      arith,
      get_elem?-lt i p (take n.addr_count ps) at_array,
      length-take n.addr_count ps (let (len, le) = block in omega arith),
    )

    abbrev nulled : IntfNode
    nulled = record n { server_array = set_pointer i 0 n.server_array }

    reload : cell np (write np nulled t.nodes) ≡ some nulled
    reload = ground (arith, cell-write np np nulled n t.nodes here)

    steps :
        (cs : Cells ServerEntry) (ps' : List ℕ) (t' : Tables)
        → release p t ≡ some (tt, record t { servers = cs })
        → compact last i (some (set ps i 0)) ≡ some (some ps')
        → drop_empty np
            (record n { addr_count = last; server_array = some ps' })
            (record t { servers = cs; nodes = write np nulled t.nodes })
          ≡ some (tt, t')
        → and_then (remove_at np n (some i) t) (remove_found np) ≡ some (true, t')
    unfolding remove_at remove_found load_node
    steps cs ps' t' released compacted dropped =
        let there : compact last i (set_pointer i 0 n.server_array) ≡ some (some ps') =
          ap (λ o. compact last i (set_pointer i 0 o)) held ∙ compacted in
        rw (at, released, reload, there, dropped) refl

    found-Removes : Removed np ip port n t (and_then (remove_at np n (some i) t) (remove_found np))
    found-Removes =
        let (len, le) = block in
        let lt = before in
        let (cs, released, l) = release_lem p s t v entry in
        let (ps', compacted, c) =
          compact_lem ps last i p (omega arith) (omega arith)
            (sym (get_elem?-take n.addr_count i ps lt) ∙ at_array) in
        let (t', dropped, d) =
          drop_lem np p n (record t { servers = cs }) v.shaped v.distinct_nodes here nulled ps ps'
            last held (omega arith) c in
        (
          (true, t'),
          steps cs ps' t' released compacted dropped,
          dropped-Removes np ip port p n t t' cs v here key l d,
        )

  no_pointer : (i p : ℕ) → n.server_array ≡ none → get_elem? (live n) i ≡ some p → ⊥
  no_pointer i p empty at =
      let zero_count : n.addr_count ≡ 0 =
        subst (λ o. IsBlock o n.addr_count) empty (AllShaped-cell np n t.nodes v.shaped here) in
      let none_live : live n ≡ [] =
        ap (λ o. pointers o n.addr_count) empty ∙ ap (pointers none) zero_count in
      let nothing : get_elem? (live n) i ≡ none = ap (λ ps. get_elem? ps i) none_live in cc

  by_search :
      (o : Option ℕ)
      → Found t.servers ip port (live n) o
      → Removed np ip port n t (and_then (remove_at np n o t) (remove_found np))
  unfolding remove_at remove_found
  by_search none (missing z) = (_, refl, missing-Removes z)
  by_search (some j) (found i p s at entry key) = elim (Option-cases n.server_array) [
    | inl empty ↦ absurd (no_pointer i p empty at)
    | inr (ps, held) ↦ found-Removes i p s ps held at entry key
  ]

-- In valid tables, a call on an allocated interface node returns, with no pointer used that is NULL
-- or freed and no assertion failed, and leaves valid tables: it returns true if and only if the
-- interface has the server, and takes that server from it once. The other servers and interfaces
-- are as they were, and the interface is freed, with the name that it has, if and only if it has no
-- server left and no bootp gateway.
pub remove_address-Removes :
    (np ip port : ℕ) (n : IntfNode) (t : Tables)
    → IsValid t
    → cell np t.nodes ≡ some n
    → (r : Bool × Tables) × (remove_address np ip port t ≡ some r) × Removes np ip port n t r
unfolding remove_address remove_server_ref_entry load_node
remove_address-Removes np ip port n t v here =
    let (o, e, out) =
      find_ref_lem t.servers ip port (live n)
        (λ a c. live-cell t a v (omega (arith, refs-le a np n t.nodes here))) in
    rw (here, e) (by_search np ip port n t v here o out)
