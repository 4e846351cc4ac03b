-- ===== src/Tables/Appended.antt =====
-- The tables in which udpfwd_store_address has shared an entry and stored the pointer to it.
use ops_ipapps.Base.{
  ℕ, ◌+◌, ◌%◌, ◌^◌, ◌<◌, ◌≤◌, ◌≡◌, refl, ◌∙◌, sym, ap, subst, Bool, true, false, Option, none, some,
  List, [], ◌∷◌, ◌++◌, ◌==◌, if◌then◌else◌, length, set, length-set, map, arith, Option-cases,
  Bool-cases, inl, inr,
}
use ops_ipapps.Tables.{ServerEntry, IntfNode, Tables, max_servers}
use mathlib.Core.Option
use mathlib.Core.List.{map-append}
use ops_ipapps.Tables.Heap.{Cells, cell, write, cell-write, occupied-write}
use ops_ipapps.Tables.Arrays.{is_at, count, take-set_end}
use ops_ipapps.Tables.Valid.{
  live, refs, refs-le, ref_count_of, IsValid, refs-write, AllShaped-write,
}
use ops_ipapps.Tables.Share.{Shared}
use ops_ipapps.Tables.View.{
  servers_of_node, key_at, servers_at, SameKeys, same_servers, map-same, live-cell,
}

pub count-append : (a : ℕ) (ps qs : List ℕ) → count a (ps ++ qs) ≡ count a ps + count a qs
count-append a [] qs = omega arith
count-append a (p ∷ ps) qs = omega (arith, count-append a ps qs)

-- The node with one pointer more.
abbrev pub appended : ℕ → List ℕ → IntfNode → IntfNode
appended p array n = record n {
  server_array = some (set array n.addr_count p);
  addr_count = (n.addr_count + 1) % 2 ^ 8;
}

live-appended :
    (p : ℕ) (array : List ℕ) (n : IntfNode)
    → n.server_array ≡ some array
    → length array ≡ max_servers
    → n.addr_count < max_servers
    → live (appended p array n) ≡ live n ++ (p ∷ [])
live-appended p array n e len lt =
    let narrow : (n.addr_count + 1) % 2 ^ 8 ≡ n.addr_count + 1 = omega arith in
    simp (narrow, e) (take-set_end n.addr_count p array (omega arith))

-- What `servers_at` is behind a call that stores the server, or one that does not.
abbrev pub with_server : Bool → ℕ → (ℕ × ℕ) → Tables → ℕ → Option (List (Option (ℕ × ℕ)))
with_server false np k t q = servers_at t q
with_server true np k t q =
    if np == q then Option.map (λ l. l ++ (some k ∷ [])) (servers_at t q) else servers_at t q

abbrev pub Reason : Type 0 → Bool → Type 0
Reason Why true = Unit {0}
Reason Why false = Why

-- A call that returns r.0, with valid tables, and the server added if and only if that is true; when
-- it is false, there is a reason.
pub record Stores (Why : Type 0) (np ip port : ℕ) (n : IntfNode) (t : Tables) (r : Bool × Tables)
    : Type 0 where
  pub valid : IsValid r.1
  pub names : r.1.names ≡ t.names
  pub servers : (q : ℕ) → servers_at r.1 q ≡ with_server r.0 np (ip, port) t q
  pub reason : Reason Why r.0
  pub node :
      (n' : IntfNode) × (cell np r.1.nodes ≡ some n')
      × (n'.addr_count ≡ n.addr_count + (if r.0 then 1 else 0))
  pub grows : (a : ℕ) → ref_count_of (cell a r.1.servers) ≤ ref_count_of (cell a t.servers) + 1

abbrev pub Returns : Type 0 → ℕ → ℕ → ℕ → IntfNode → Tables → Option (Bool × Tables) → Type 0
Returns Why np ip port n t o = (r : Bool × Tables) × (o ≡ some r) × Stores Why np ip port n t r

-- The tables with the entry shared and the pointer stored.
module _ (Why : Type 0) (np ip port p : ℕ) (cs : Cells ServerEntry) (array : List ℕ) (n : IntfNode)
    (t : Tables) (v : IsValid t) (here : cell np t.nodes ≡ some n)
    (held : n.server_array ≡ some array) (len : length array ≡ max_servers)
    (lt : n.addr_count < max_servers) (s : Shared ip port p t.servers cs) where
  abbrev pub after : Tables
  after = record t { servers = cs; nodes = write np (appended p array n) t.nodes }

  refs-after : (a : ℕ) → refs a after.nodes ≡ refs a t.nodes + is_at a p
  refs-after a = omega (
    arith,
    refs-write a np (appended p array n) n t.nodes here,
    ap (count a) (live-appended p array n held len lt),
    count-append a (live n) (p ∷ []),
  )

  after-IsValid : IsValid after
  after-IsValid = record {
    counted = λ a. omega (arith, refs-after a, v.counted a, s.one_more a);
    positive = s.positive;
    shaped =
        AllShaped-write np (appended p array n) t.nodes v.shaped
          (length-set array n.addr_count p ∙ len, omega arith);
    distinct_servers = s.distinct;
    distinct_nodes =
        λ a. omega (arith, occupied-write np a (appended p array n) t.nodes, v.distinct_nodes a);
    null_server = s.null;
    unique = s.unique;
  }

  after-SameKeys : SameKeys t after
  after-SameKeys a pos pos' =
      let (r, e) = live-cell t a v pos in let (r', e', same) = s.kept a r e in ground arith

  new_server_key : key_at after p ≡ some (ip, port)
  new_server_key = let (r, e, key) = s.entry in ground arith

  old_keys : map (key_at after) (live n) ≡ map (key_at t) (live n)
  old_keys = map-same (key_at after) (key_at t) (live n) (λ a c.
      after-SameKeys a (omega (arith, refs-le a np n t.nodes here))
        (omega (arith, refs-after a, refs-le a np n t.nodes here)))

  servers_at-after_self :
      servers_at after np ≡ Option.map (λ l. l ++ (some (ip, port) ∷ [])) (servers_at t np)
  unfolding servers_at
  servers_at-after_self =
      let there : cell np after.nodes ≡ some (appended p array n) =
        ground (arith, cell-write np np (appended p array n) n t.nodes here) in
      simp (there, here)
        (ap some (
          ap (map (key_at after)) (live-appended p array n held len lt)
          ∙ map-append (key_at after) (live n) (p ∷ [])
          ∙ ap (λ l. l ++ (key_at after p ∷ [])) old_keys
          ∙ ap (λ k. map (key_at t) (live n) ++ (k ∷ [])) new_server_key))

  servers_at-after_other : (q : ℕ) → (np == q) ≡ false → servers_at after q ≡ servers_at t q
  unfolding servers_at
  servers_at-after_other q ne = elim (Option-cases (cell q t.nodes)) [
    | inl e ↦ missing q ne e
    | inr (m, e) ↦ same_servers t after q m after-SameKeys e (still q ne ∙ e)
  ]
    where
      still : (q : ℕ) → (np == q) ≡ false → cell q after.nodes ≡ cell q t.nodes
      still q ne = ground (arith, cell-write np q (appended p array n) n t.nodes here)

      missing :
          (q : ℕ) → (np == q) ≡ false → cell q t.nodes ≡ none → servers_at after q ≡ servers_at t q
      missing q ne e = ap (servers_of_node after) (still q ne ∙ e) ∙ sym (ap (servers_of_node t) e)

  pub after-Stores : Stores Why np ip port n t (true, after)
  after-Stores = record {
    valid = after-IsValid;
    names = refl;
    servers = λ q. elim (Bool-cases (np == q)) [
      | inl same ↦ rw same (
          subst
            (λ q.
              servers_at after q ≡ Option.map (λ l. l ++ (some (ip, port) ∷ [])) (servers_at t q))
            (ground arith) servers_at-after_self)
      | inr apart ↦ rw apart (servers_at-after_other q apart)
    ];
    reason = tt;
    node = (
      appended p array n,
      ground (arith, cell-write np np (appended p array n) n t.nodes here),
      omega arith,
    );
    grows = λ a. ground (arith, s.one_more a);
  }
