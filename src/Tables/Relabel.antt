-- ===== src/Tables/Relabel.antt =====
-- A change of an interface node that leaves its pointers as they are.
use ops_ipapps.Base.{
  ℕ, ◌≡◌, refl, ◌∙◌, ap, some, ◌==◌, if◌then◌else◌, arith, inl, inr, Bool-cases, map,
}
use ops_ipapps.Tables.{IntfNode, Tables}
use ops_ipapps.Tables.Heap.{cell, write, cell-write, occupied-write}
use ops_ipapps.Tables.Arrays.{count}
use ops_ipapps.Tables.Valid.{live, IsShaped, IsValid, refs-write, AllShaped-write}
use ops_ipapps.Tables.View.{servers_of_node, servers_at, key_at}

module _ (np : ℕ) (n n' : IntfNode) (t : Tables) (v : IsValid t) (here : cell np t.nodes ≡ some n)
    (same : live n' ≡ live n) where
  abbrev pub relabelled : Tables
  relabelled = record t { nodes = write np n' t.nodes }

  pub relabelled-IsValid : IsShaped n' → IsValid relabelled
  relabelled-IsValid shape = record {
    counted = λ a. omega (arith, refs-write a np n' n t.nodes here, ap (count a) same, v.counted a);
    positive = v.positive;
    shaped = AllShaped-write np n' t.nodes v.shaped shape;
    distinct_servers = v.distinct_servers;
    distinct_nodes = λ a. omega (arith, occupied-write np a n' t.nodes, v.distinct_nodes a);
    null_server = v.null_server;
    unique = v.unique;
  }

  pub servers_at-relabelled : (q : ℕ) → servers_at relabelled q ≡ servers_at t q
  unfolding servers_at
  servers_at-relabelled q = ap (servers_of_node t) (cell-write np q n' n t.nodes here) ∙ at_node q
    where
      at_node :
          (q : ℕ)
          → servers_of_node t (if np == q then some n' else cell q t.nodes)
            ≡ servers_of_node t (cell q t.nodes)
      at_node q = elim (Bool-cases (np == q)) [
        | inl e ↦
            let found : some n ≡ cell q t.nodes = ground arith in
            rw e (ap (λ l. some (map (key_at t) l)) same ∙ ap (servers_of_node t) found)
        | inr e ↦ rw e refl
      ]

  pub cell-relabelled : cell np relabelled.nodes ≡ some n'
  cell-relabelled = ground (arith, cell-write np np n' n t.nodes here)
