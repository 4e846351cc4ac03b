-- ===== src/Tables/Dropped.antt =====
-- The interface nodes behind udpfwd_remove_address: one pointer less, or no node.
use ops_ipapps.Base.{
  ℕ, ◌+◌, ◌≤◌, ◌≡◌, refl, ◌∙◌, sym, ap, subst, Bool, true, false, ◌&&◌, Option, none, some, List,
  [], ◌∷◌, ◌==◌, if◌then◌else◌, arith, if_elim,
}
use ops_ipapps.Tables.{IntfNode, Tables, take, pointers, starts_null, drop_empty, delete_name}
use ops_ipapps.Tables.Heap.{
  Cells, cell, write, free, occupied, cell-write, cell-free, occupied-write, occupied-free-le,
}
use ops_ipapps.Tables.Arrays.{is_at, count}
use ops_ipapps.Tables.Compact.{Compacted}
use ops_ipapps.Tables.Tally.{live_of}
use ops_ipapps.Tables.Valid.{
  live, refs, IsShaped, AllShaped, refs-write, refs-free, AllShaped-write, AllShaped-free,
  AllShaped-cell, IsBlock,
}

pub write-write :
    {V : Type 0} (p : ℕ) (v w : V) (cs : Cells V) → write p v (write p w cs) ≡ write p v cs
unfolding write
write-write p v w [] = refl
write-write p v w ((q, x) ∷ cs) = ground (arith, write-write p v w cs)

pub free-write : {V : Type 0} (p : ℕ) (w : V) (cs : Cells V) → free p (write p w cs) ≡ free p cs
unfolding write free
free-write p w [] = refl
free-write p w ((q, x) ∷ cs) = ground (arith, free-write p w cs)

-- Whether the removal of a server leaves the interface with no configuration.
abbrev pub emptied : IntfNode → Bool
emptied n = (n.addr_count == 1) && (n.bootp_gw == 0)

-- What is left of the node: nothing, or the node with one server less.
abbrev pub NodeAfter : IntfNode → Option IntfNode → Type 0
NodeAfter n none = emptied n ≡ true
NodeAfter n (some n') =
    (emptied n ≡ false) × (n'.addr_count + 1 ≡ n.addr_count) × (n'.bootp_gw ≡ n.bootp_gw)

-- The nodes and the names without a pointer to `p` at `np`.
pub record Dropped (np p : ℕ) (n : IntfNode) (t t' : Tables) : Type 0 where
  pub servers : t'.servers ≡ t.servers
  pub fewer : (a : ℕ) → refs a t'.nodes + is_at a p ≡ refs a t.nodes
  pub shaped : AllShaped t'.nodes
  pub distinct : (a : ℕ) → occupied a t'.nodes ≤ 1
  pub self : (a : ℕ) → count a (live_of (cell np t'.nodes)) + is_at a p ≡ count a (live n)
  pub others : (q : ℕ) → (np == q) ≡ false → cell q t'.nodes ≡ cell q t.nodes
  pub node : NodeAfter n (cell np t'.nodes)
  pub names : t'.names ≡ (if emptied n then delete_name n.port_name t.names else t.names)

module _ (np p : ℕ) (n : IntfNode) (t : Tables) (all_shaped : AllShaped t.nodes)
    (all_distinct : (a : ℕ) → occupied a t.nodes ≤ 1) (here : cell np t.nodes ≡ some n) where
  written-Dropped :
      (n' : IntfNode)
      → IsShaped n'
      → ((a : ℕ) → count a (live n') + is_at a p ≡ count a (live n))
      → NodeAfter n (some n')
      → Dropped np p n t (record t { nodes = write np n' t.nodes })
  written-Dropped n' shape less (stays, size, gateway) = record {
    servers = refl;
    fewer = λ a. omega (arith, refs-write a np n' n t.nodes here, less a);
    shaped = AllShaped-write np n' t.nodes all_shaped shape;
    distinct = λ a. omega (arith, occupied-write np a n' t.nodes, all_distinct a);
    self = λ a. ap (λ o. count a (live_of o) + is_at a p) there ∙ less a;
    others = λ q ne. ground (arith, cell-write np q n' n t.nodes here);
    node = subst (NodeAfter n) (sym there) (stays, size, gateway);
    names = rw stays refl;
  }
    where
      there : cell np (write np n' t.nodes) ≡ some n'
      there = ground (arith, cell-write np np n' n t.nodes here)

  freed-Dropped :
      ((a : ℕ) → is_at a p ≡ count a (live n))
      → emptied n ≡ true
      → Dropped np p n t
          (record t { nodes = free np t.nodes; names = delete_name n.port_name t.names })
  freed-Dropped only goes = record {
    servers = refl;
    fewer = λ a. omega (arith, refs-free a np n t.nodes here, only a);
    shaped = AllShaped-free np t.nodes all_shaped;
    distinct = λ a. omega (arith, occupied-free-le np a t.nodes, all_distinct a);
    self = λ a. ap (λ o. count a (live_of o) + is_at a p) there ∙ omega (arith, only a);
    others = λ q ne. ground (arith, cell-free np q t.nodes (all_distinct q));
    node = subst (NodeAfter n) (sym there) goes;
    names = rw goes refl;
  }
    where
      there : cell np (free np t.nodes) ≡ none
      there = ground (arith, cell-free np np t.nodes (all_distinct np))

  abbrev Drops : Option (Unit {0} × Tables) → Type 0
  Drops o = (t' : Tables) × (o ≡ some (tt, t')) × Dropped np p n t t'

  module _ (n₁ : IntfNode) (ps ps' : List ℕ) (m : ℕ) (held : n.server_array ≡ some ps)
      (size : n.addr_count ≡ m + 1) (c : Compacted ps ps' m p) where
    abbrev shortened : IntfNode
    shortened = record n { addr_count = m; server_array = some ps' }

    counts_live : (a : ℕ) → count a (take m ps') + is_at a p ≡ count a (live n)
    counts_live a =
        c.counts a
        ∙ ap (λ k. count a (take k ps)) (sym size)
        ∙ ap (λ o. count a (pointers o n.addr_count)) (sym held)

    shortened-IsShaped : IsShaped shortened
    shortened-IsShaped =
        let shape = AllShaped-cell np n t.nodes all_shaped here in
        let (len, le) = subst (λ o. IsBlock o n.addr_count) held shape in
        (c.same_length ∙ len, omega arith)

    rewritten :
        (n' : IntfNode)
        → Dropped np p n t (record t { nodes = write np n' t.nodes })
        → Dropped np p n t (record t { nodes = write np n' (write np n₁ t.nodes) })
    rewritten n' =
        subst (λ ns. Dropped np p n t (record t { nodes = ns }))
          (sym (write-write np n' n₁ t.nodes))

    pub drop_lem : Drops (drop_empty np shortened (record t { nodes = write np n₁ t.nodes }))
    unfolding drop_empty
    drop_lem =
        if_elim Drops (starts_null (some ps') && (m == 0)) _ _
          (λ last.
            if_elim Drops (n.bootp_gw == 0) _ _
              (λ alone. (
                _,
                refl,
                subst
                    (λ ns.
                      Dropped np p n t
                        (record t { nodes = ns; names = delete_name n.port_name t.names }))
                    (sym (free-write np n₁ t.nodes))
                    (freed-Dropped
                      (λ a.
                        let z : m ≡ 0 = ground arith in
                        omega (arith, counts_live a, ap (λ k. count a (take k ps')) z))
                      (ground arith)),
              ))
              (λ gateway. (
                _,
                refl,
                rewritten (record shortened { server_array = none })
                    (written-Dropped (record shortened { server_array = none }) (ground arith)
                      (λ a.
                        let z : m ≡ 0 = ground arith in
                        omega (
                          arith,
                          counts_live a,
                          ap (λ k. count a (take k ps')) z,
                          ap (λ k. count a (pointers none k)) z,
                        ))
                      (ground arith, omega arith, refl)),
              )))
          (λ more. (
            _,
            refl,
            rewritten shortened (
                written-Dropped shortened shortened-IsShaped counts_live
                  (let starts = c.null_start in ground arith, omega arith, refl)),
          ))
