-- ===== src/Rows/Removal.antt =====
-- The loop that collects an interface's servers and the loop that removes them.
use ops_ipapps.Base.{
  ℕ, zero, suc, ◌+◌, ◌<◌, ◌≤◌, ◌≡◌, refl, ◌∙◌, sym, ap, subst, Bool, true, false, ◌&&◌, not, Option,
  none, some, List, [], ◌∷◌, leb, ◌==◌, if◌then◌else◌, length, arith, Option-cases, inl, inr,
}
use ops_ipapps.Tables.{ServerEntry, IntfNode, Tables, max_servers, load_node}
use ops_ipapps.Tables.Heap.{Cells, cell}
use ops_ipapps.Tables.Arrays.{count}
use ops_ipapps.Tables.Valid.{live, ref_count_of, refs-le, IsValid, AllShaped-cell, length-live}
use ops_ipapps.Tables.View.{live-cell}
use ops_ipapps.Tables.Tally.{sum_over, hit, live_of, serves, is_at_self}
use ops_ipapps.Tables.AfterRemoval.{NodeFound}
use ops_ipapps.Tables.RemoveAddress.{remove_address-Removes}
use ops_ipapps.Tables.Dropped.{emptied, NodeAfter}
use ops_ipapps.Rows.{until_zero, local_array, collected, collect, remove_servers, remove_collected}

-- How often a server is in a list.
abbrev pub key_count : ℕ → ℕ → List (ℕ × ℕ) → ℕ
key_count i u [] = 0
key_count i u ((ip, port) ∷ ks) = (if (ip == i) && (port == u) then 1 else 0) + key_count i u ks

until_zero_lem :
    (slots : ℕ) (ks : List (ℕ × ℕ))
    → length ks < slots
    → ((u : ℕ) → key_count 0 u ks ≡ 0)
    → until_zero slots ks ≡ some ks
unfolding until_zero
until_zero_lem zero ks lt h = absurd (omega arith)
until_zero_lem (suc slots) [] lt h = refl
until_zero_lem (suc slots) ((ip, port) ∷ ks) lt h =
    let rest = until_zero_lem slots ks (omega arith) (λ u. omega (arith, h u)) in
    let nonzero : (ip == 0) ≡ false = ground (arith, h port) in rw (nonzero, rest) refl

pub local_array_lem :
    (ks : List (ℕ × ℕ))
    → length ks < max_servers
    → ((u : ℕ) → key_count 0 u ks ≡ 0)
    → local_array ks ≡ some ks
unfolding local_array
local_array_lem ks lt h =
    let fits : leb (length ks) max_servers ≡ true = ground arith in
    rw fits (until_zero_lem max_servers ks lt h)

-- The servers of the pointers for which the test holds, each as often as it is there.
pub record Collected (test : ℕ → ℕ → Bool) (cs : Cells ServerEntry) (ps : List ℕ)
    (ks : List (ℕ × ℕ)) : Type 0 where
  pub keys :
      (i u : ℕ)
      → key_count i u ks ≡ (if test i u then sum_over (λ a. hit (cell a cs) i u) ps else 0)
  pub bound : length ks ≤ length ps

pub collect_lem :
    (test : ℕ → ℕ → Bool) (cs : Cells ServerEntry) (ps : List ℕ)
    → ((a : ℕ) → 0 < count a ps → (s : ServerEntry) × (cell a cs ≡ some s))
    → (ks : List (ℕ × ℕ)) × (collect test cs ps ≡ some ks) × Collected test cs ps ks
unfolding collect collected
collect_lem test cs [] h = ([], refl, record { keys = λ i u. ground arith; bound = omega arith })
collect_lem test cs (p ∷ ps) h =
    let (s, e) = h p (omega (arith, is_at_self p)) in
    let (ks, r, c) = collect_lem test cs ps (λ a k. h a (omega arith)) in
    (
      if test s.ip_address s.udp_port then (s.ip_address, s.udp_port) ∷ ks else ks,
      rw (e, r) (if_some ((s.ip_address, s.udp_port) ∷ ks) ks (test s.ip_address s.udp_port)),
      record {
        keys = λ i u. ground (arith, c.keys i u, e);
        bound = let b = c.bound in ground arith;
      },
    )
  where
    if_some :
        (ks ls : List (ℕ × ℕ)) (b : Bool)
        → (if b then some ks else some ls) ≡ some (if b then ks else ls)
    if_some ks ls true = refl
    if_some ks ls false = refl

-- What is left of a node after `k` removals: nothing if there is no configuration left.
abbrev pub NodeLeft : ℕ → IntfNode → Option IntfNode → Type 0
NodeLeft k n none = (k ≡ n.addr_count) × (n.bootp_gw ≡ 0) × (0 < k)
NodeLeft k n (some n') =
    (n'.addr_count + k ≡ n.addr_count)
    × (n'.bootp_gw ≡ n.bootp_gw)
    × ((k == n.addr_count) && (n.bootp_gw == 0) && not (k == 0) ≡ false)

-- The interface loses the servers of the list, and nothing else changes.
pub record Removed (np : ℕ) (lost : ℕ → ℕ → ℕ) (t t' : Tables) : Type 0 where
  pub valid : IsValid t'
  pub servers : (q i u : ℕ) → serves t' q i u + (if np == q then lost i u else 0) ≡ serves t q i u
  pub others : (q : ℕ) → (np == q) ≡ false → cell q t'.nodes ≡ cell q t.nodes
  pub fewer : (a : ℕ) → ref_count_of (cell a t'.servers) ≤ ref_count_of (cell a t.servers)

-- An interface that has a server is allocated.
pub serves-cell :
    (t : Tables) (np i u : ℕ) → 0 < serves t np i u → (n : IntfNode) × (cell np t.nodes ≡ some n)
unfolding serves
serves-cell t np i u pos = elim (Option-cases (cell np t.nodes)) [
  | inl e ↦
      absurd (omega (arith, ap (λ o. sum_over (λ a. hit (cell a t.servers) i u) (live_of o)) e))
  | inr held ↦ held
]

-- One removal more.
count_one :
    (n : IntfNode) (o : Option IntfNode) (n₁ : IntfNode) (k : ℕ)
    → emptied n ≡ false
    → n₁.addr_count + 1 ≡ n.addr_count
    → n₁.bootp_gw ≡ n.bootp_gw
    → NodeLeft k n₁ o
    → NodeLeft (suc k) n o
count_one n none n₁ k stays size gateway (all, empty, some_removed) =
    (omega arith, omega arith, omega arith)
count_one n (some n₂) n₁ k stays size gateway (rest, gw, more) =
    (omega arith, gw ∙ gateway, ground arith)

-- The servers that an interface has can be removed one after the other: the interface is not freed
-- before the last of them.
pub remove_servers-Removed :
    (np : ℕ) (ks : List (ℕ × ℕ)) (n : IntfNode) (t : Tables)
    → IsValid t
    → cell np t.nodes ≡ some n
    → ((i u : ℕ) → key_count i u ks ≤ serves t np i u)
    → (t' : Tables) × (remove_servers np ks t ≡ some (tt, t'))
      × Removed np (λ i u. key_count i u ks) t t'
      × NodeLeft (length ks) n (cell np t'.nodes)
unfolding remove_servers
remove_servers-Removed np [] n t v e h = (
  t,
  refl,
  record {
    valid = v;
    servers = λ q i u. ground arith;
    others = λ q ne. refl;
    fewer = λ a. omega arith;
  },
  subst (NodeLeft 0 n) (sym e) (omega arith, refl, ground arith),
)
remove_servers-Removed np ((ip, port) ∷ ks) n t v e h =
    let here : 0 < serves t np ip port = ground (arith, h ip port) in
    let ((b, t₁), r, d) = remove_address-Removes np ip port n t v e in
    let stored : b ≡ true = let a = d.answer in ground arith in
    let after : NodeAfter n (cell np t₁.nodes) =
      subst (λ b. NodeFound b n (cell np t₁.nodes)) stored d.node in
    let enough : (i u : ℕ) → key_count i u ks ≤ serves t₁ np i u =
      λ i u. let s = d.servers np i u in let k = h i u in ground arith in
    let rest : Rest ks t₁ = elim (Option-cases (cell np t₁.nodes)) [
      | inl gone ↦ after_last ks t₁ d.valid gone enough (subst (NodeAfter n) gone after)
      | inr (n₁, e₁) ↦
          let (stays, size, gateway) = subst (NodeAfter n) e₁ after in
          let (t₂, r₂, l, left) = remove_servers-Removed np ks n₁ t₁ d.valid e₁ enough in
          (t₂, r₂, l, count_one n (cell np t₂.nodes) n₁ (length ks) stays size gateway left)
    ] in
    let (t₂, r₂, l, left) = rest in
    (
      t₂,
      rw (r, r₂) refl,
      record {
        valid = l.valid;
        servers = λ q i u. let s = d.servers q i u in let k = l.servers q i u in ground arith;
        others = λ q ne. l.others q ne ∙ d.others q ne;
        fewer = λ a. omega (arith, l.fewer a, d.fewer a);
      },
      left,
    )
  where
    Rest : List (ℕ × ℕ) → Tables → Type 0
    Rest ks t₁ =
        (t' : Tables) × (remove_servers np ks t₁ ≡ some (tt, t'))
        × Removed np (λ i u. key_count i u ks) t₁ t'
        × NodeLeft (suc (length ks)) n (cell np t'.nodes)

    after_last :
        (ks : List (ℕ × ℕ)) (t₁ : Tables)
        → IsValid t₁
        → cell np t₁.nodes ≡ none
        → ((i u : ℕ) → key_count i u ks ≤ serves t₁ np i u)
        → NodeAfter n none
        → Rest ks t₁
    after_last [] t₁ v₁ gone enough after = (
      t₁,
      refl,
      record {
        valid = v₁;
        servers = λ q i u. ground arith;
        others = λ q ne. refl;
        fewer = λ a. omega arith;
      },
      subst (NodeLeft (suc 0) n) (sym gone) (ground arith, ground arith, omega arith),
    )
    after_last ((ip, port) ∷ ks) t₁ v₁ gone enough after =
        let here : 0 < serves t₁ np ip port = ground (arith, enough ip port) in
        let (m, e) = serves-cell t₁ np ip port here in absurd (cc)

-- The loop that collects, the local array, and the loop that removes.
pub record Cleared (test : ℕ → ℕ → Bool) (np : ℕ) (n : IntfNode) (t : Tables) : Type 0 where
  pub ks : List (ℕ × ℕ)
  pub result : Tables
  pub collects : collect test t.servers (live n) ≡ some ks
  pub local : local_array ks ≡ some ks
  pub removes : remove_servers np ks t ≡ some (tt, result)
  pub removed : Removed np (λ i u. if test i u then serves t np i u else 0) t result
  pub node : NodeLeft (length ks) n (cell np result.nodes)

pub cleared :
    (test : ℕ → ℕ → Bool) (np : ℕ) (n : IntfNode) (t : Tables)
    → IsValid t
    → ((q u : ℕ) → serves t q 0 u ≡ 0)
    → cell np t.nodes ≡ some n
    → n.addr_count < max_servers
    → Cleared test np n t
unfolding serves
cleared test np n t v nz here lt =
    let (ks, e, c) =
      collect_lem test t.servers (live n)
        (λ a k. live-cell t a v (omega (arith, refs-le a np n t.nodes here))) in
    let same : (i u : ℕ) → sum_over (λ a. hit (cell a t.servers) i u) (live n) ≡ serves t np i u =
      λ i u. ap (λ o. sum_over (λ a. hit (cell a t.servers) i u) (live_of o)) (sym here) in
    let (t', r, l, left) =
      remove_servers-Removed np ks n t v here (λ i u. ground (arith, c.keys i u, same i u)) in
    record {
      ks = ks;
      result = t';
      collects = e;
      local =
          local_array_lem ks
            (omega (arith, c.bound, length-live n (AllShaped-cell np n t.nodes v.shaped here)))
            (λ u. ground (arith, c.keys 0 u, same 0 u, nz np u));
      removes = r;
      removed = record {
        valid = l.valid;
        servers = λ q i u. ground (arith, l.servers q i u, c.keys i u, same i u);
        others = l.others;
        fewer = l.fewer;
      };
      node = left;
    }

pub remove_collected-Removed :
    (test : ℕ → ℕ → Bool) (np : ℕ) (n : IntfNode) (t : Tables)
    → cell np t.nodes ≡ some n
    → Cleared test np n t
    → (t' : Tables) × (remove_collected test np t ≡ some (tt, t'))
      × Removed np (λ i u. if test i u then serves t np i u else 0) t t'
unfolding remove_collected load_node
remove_collected-Removed test np n t here c =
    (c.result, rw (here, c.collects, c.local, c.removes) refl, c.removed)
