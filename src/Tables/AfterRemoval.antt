-- ===== src/Tables/AfterRemoval.antt =====
-- The tables behind udpfwd_remove_address, when an entry is released and the interface has one pointer
-- less.
use ops_ipapps.Base.{
  ℕ, ◌+◌, ◌<◌, ◌≤◌, ◌≡◌, ◌∙◌, sym, ap, subst, Bool, true, false, ◌&&◌, not, Option, none, some, ◌∷◌,
  ◌==◌, if◌then◌else◌, arith, Bool-cases, Option-cases, inl, inr,
}
use ops_ipapps.Tables.{ServerEntry, IntfNode, Tables, delete_name}
use ops_ipapps.Tables.Heap.{Cells, cell, occupied}
use ops_ipapps.Tables.Arrays.{count}
use ops_ipapps.Tables.Valid.{live, refs, refs-le, ref_count_of, entries, AllCounted, IsValid}
use ops_ipapps.Tables.Tally.{
  sum_over, hit, has_key, live_of, serves, sum_over-same, sum_over-counts, hit-key, hit-has_key,
}
use ops_ipapps.Tables.Release.{Released}
use ops_ipapps.Tables.Dropped.{Dropped, emptied, NodeAfter}

abbrev pub NodeFound : Bool → IntfNode → Option IntfNode → Type 0
NodeFound false n o = o ≡ some n
NodeFound true n o = NodeAfter n o

-- A call that returns `removed`: true if and only if the interface has the server, with one
-- reference less; and the interface is gone when that leaves it with no configuration.
pub record Removes (np ip port : ℕ) (n : IntfNode) (t : Tables) (r : Bool × Tables) : Type 0 where
  pub valid : IsValid r.1
  pub answer : r.0 ≡ not (serves t np ip port == 0)
  pub servers :
      (q i u : ℕ)
      → serves r.1 q i u + (if r.0 && (np == q) && (i == ip) && (u == port) then 1 else 0)
        ≡ serves t q i u
  pub others : (q : ℕ) → (np == q) ≡ false → cell q r.1.nodes ≡ cell q t.nodes
  pub fewer : (a : ℕ) → ref_count_of (cell a r.1.servers) ≤ ref_count_of (cell a t.servers)
  pub node : NodeFound r.0 n (cell np r.1.nodes)
  pub names : r.1.names ≡ (if r.0 && emptied n then delete_name n.port_name t.names else t.names)

module _ (np ip port p : ℕ) (n : IntfNode) (t t' : Tables) (cs : Cells ServerEntry) (v : IsValid t)
    (here : cell np t.nodes ≡ some n) (key : has_key (cell p t.servers) ip port ≡ true)
    (l : Released p t.servers cs) (d : Dropped np p n (record t { servers = cs }) t') where
  dropped-IsValid : IsValid t'
  dropped-IsValid = record {
    counted = λ a.
        omega (
          arith,
          d.fewer a,
          v.counted a,
          l.one_less a,
          ap (λ c. ref_count_of (cell a c)) d.servers,
        );
    positive = subst AllCounted (sym d.servers) l.positive;
    shaped = d.shaped;
    distinct_servers = λ a. subst (λ c. occupied a c ≤ 1) (sym d.servers) (l.distinct a);
    distinct_nodes = d.distinct;
    null_server = subst (λ c. cell 0 c ≡ none) (sym d.servers) l.null;
    unique = λ i u. subst (λ c. entries i u c ≤ 1) (sym d.servers) (l.unique i u);
  }

  live_of-le : (a q : ℕ) → count a (live_of (cell q t'.nodes)) ≤ refs a t'.nodes
  live_of-le a q = elim (Option-cases (cell q t'.nodes)) [
    | inl e ↦ rw e (omega arith)
    | inr (m, e) ↦ rw e (refs-le a q m t'.nodes e)
  ]

  -- A pointer that is still held leads to the same server.
  hit_kept :
      (q i u a : ℕ)
      → 0 < count a (live_of (cell q t'.nodes))
      → hit (cell a t'.servers) i u ≡ hit (cell a t.servers) i u
  hit_kept q i u a c =
      ap (λ x. hit (cell a x) i u) d.servers
      ∙ hit-key (cell a cs) (cell a t.servers) i u (
          l.kept a (
            omega (
              arith,
              live_of-le a q,
              dropped-IsValid.counted a,
              ap (λ x. ref_count_of (cell a x)) d.servers,
            )))

  tally_kept :
      (q i u : ℕ)
      → serves t' q i u ≡ sum_over (λ a. hit (cell a t.servers) i u) (live_of (cell q t'.nodes))
  unfolding serves
  tally_kept q i u =
      sum_over-same (λ a. hit (cell a t'.servers) i u) (λ a. hit (cell a t.servers) i u)
        (live_of (cell q t'.nodes)) (hit_kept q i u)

  serves_self :
      (i u : ℕ) → serves t' np i u + (if (i == ip) && (u == port) then 1 else 0) ≡ serves t np i u
  unfolding serves
  serves_self i u =
      let counts : sum_over (λ a. hit (cell a t.servers) i u) (p ∷ live_of (cell np t'.nodes))
          ≡ sum_over (λ a. hit (cell a t.servers) i u) (live n) =
        sum_over-counts (λ a. hit (cell a t.servers) i u) (p ∷ live_of (cell np t'.nodes)) (live n)
          (λ a. omega (arith, d.self a)) in
      omega (
        arith,
        tally_kept np i u,
        hit-has_key (cell p t.servers) ip port i u key,
        counts,
        ap (λ o. sum_over (λ a. hit (cell a t.servers) i u) (live_of o)) here,
      )

  serves_other : (q i u : ℕ) → (np == q) ≡ false → serves t' q i u ≡ serves t q i u
  unfolding serves
  serves_other q i u ne =
      tally_kept q i u
      ∙ ap (λ o. sum_over (λ a. hit (cell a t.servers) i u) (live_of o)) (d.others q ne)

  held-pos : 0 < serves t np ip port
  held-pos = omega (arith, serves_self ip port, one)
    where
      one : ◌≡◌ {A = ℕ} (if (ip == ip) && (port == port) then 1 else 0) 1
      one = ground arith

  serves-removed :
      (q i u : ℕ)
      → serves t' q i u + (if (np == q) && (i == ip) && (u == port) then 1 else 0) ≡ serves t q i u
  serves-removed q i u = elim (Bool-cases (np == q)) [
    | inl e ↦ rw e (
        subst (λ q. serves t' q i u + (if (i == ip) && (u == port) then 1 else 0) ≡ serves t q i u)
          (let same : np ≡ q = ground arith in same) (serves_self i u))
    | inr e ↦ rw e (omega (arith, serves_other q i u e))
  ]

  pub dropped-Removes : Removes np ip port n t (true, t')
  dropped-Removes = record {
    valid = dropped-IsValid;
    answer = let pos = held-pos in ground arith;
    servers = serves-removed;
    others = d.others;
    fewer = λ a. omega (arith, l.one_less a, ap (λ c. ref_count_of (cell a c)) d.servers);
    node = d.node;
    names = d.names;
  }
