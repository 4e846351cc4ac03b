-- ===== src/Tables/RoundTrip.antt =====
-- A server that is stored can be removed again, and the interfaces have what they had.
use ops_ipapps.Base.{
  ℕ, ◌+◌, ◌≡◌, refl, ◌∙◌, sym, ap, subst, true, ◌&&◌, Option, none, some, List, [], ◌∷◌, ◌++◌, ◌==◌,
  if◌then◌else◌, map, arith, Bool-cases, inl, inr,
}
use ops_ipapps.Tables.{ServerEntry, IntfNode, Tables, Allocator, remove_address}
use ops_ipapps.Tables.Store.{store_address}
use ops_ipapps.Tables.Heap.{cell}
use ops_ipapps.Tables.Valid.{live, IsValid}
use ops_ipapps.Tables.Entries.{IsSound}
use ops_ipapps.Tables.Share.{HasRoom}
use ops_ipapps.Tables.View.{key_at, key_of, servers_at, servers_of_node}
use ops_ipapps.Tables.Tally.{sum_over, hit, live_of, serves}
use ops_ipapps.Tables.Appended.{Stores}
use ops_ipapps.Tables.StoreAddress.{Refused, store_address-Stores}
use ops_ipapps.Tables.RemoveAddress.{remove_address-Removes}

-- The servers of an interface by number and in order.
abbrev key_hit : ℕ → ℕ → Option (ℕ × ℕ) → ℕ
key_hit i u none = 0
key_hit i u (some k) = if (k.0 == i) && (k.1 == u) then 1 else 0

abbrev tally : ℕ → ℕ → List (Option (ℕ × ℕ)) → ℕ
tally i u [] = 0
tally i u (k ∷ ks) = key_hit i u k + tally i u ks

abbrev tally_of : ℕ → ℕ → Option (List (Option (ℕ × ℕ))) → ℕ
tally_of i u none = 0
tally_of i u (some ks) = tally i u ks

hit-key_hit : (o : Option ServerEntry) (i u : ℕ) → hit o i u ≡ key_hit i u (key_of o)
hit-key_hit none i u = refl
hit-key_hit (some s) i u = refl

tally-map :
    (t : Tables) (i u : ℕ) (ps : List ℕ)
    → sum_over (λ a. hit (cell a t.servers) i u) ps ≡ tally i u (map (key_at t) ps)
tally-map t i u [] = refl
tally-map t i u (p ∷ ps) = omega (arith, tally-map t i u ps, hit-key_hit (cell p t.servers) i u)

tally-append :
    (i u : ℕ) (k : Option (ℕ × ℕ)) (ks : List (Option (ℕ × ℕ)))
    → tally i u (ks ++ (k ∷ [])) ≡ tally i u ks + key_hit i u k
tally-append i u k [] = omega arith
tally-append i u k (l ∷ ks) = omega (arith, tally-append i u k ks)

serves-servers_at : (t : Tables) (q i u : ℕ) → serves t q i u ≡ tally_of i u (servers_at t q)
unfolding serves servers_at
serves-servers_at t q i u = of_node (cell q t.nodes)
  where
    of_node :
        (o : Option IntfNode)
        → sum_over (λ a. hit (cell a t.servers) i u) (live_of o)
          ≡ tally_of i u (servers_of_node t o)
    of_node none = refl
    of_node (some n) = tally-map t i u (live n)

-- A server that is stored is one server more.
pub Stores-serves :
    (Why : Type 0) (np ip port : ℕ) (n : IntfNode) (t t' : Tables)
    → cell np t.nodes ≡ some n
    → Stores Why np ip port n t (true, t')
    → (q i u : ℕ)
    → serves t' q i u
      ≡ serves t q i u + (if np == q then (if (ip == i) && (port == u) then 1 else 0) else 0)
unfolding servers_at
Stores-serves Why np ip port n t t' here s q i u = elim (Bool-cases (np == q)) [
  | inl e ↦
      let same : np ≡ q = ground arith in
      let was : servers_at t q ≡ some (map (key_at t) (live n)) =
        ap (servers_of_node t) (ap (λ x. cell x t.nodes) (sym same) ∙ here) in
      let now : servers_at t' q ≡ some (map (key_at t) (live n) ++ (some (ip, port) ∷ [])) =
        s.servers q ∙ rw (e, was) refl in
      rw e (
        omega (
          arith,
          serves-servers_at t q i u,
          serves-servers_at t' q i u,
          ap (tally_of i u) was,
          ap (tally_of i u) now,
          tally-append i u (some (ip, port)) (map (key_at t) (live n)),
        ))
  | inr e ↦
      let now : servers_at t' q ≡ servers_at t q = s.servers q ∙ rw e refl in
      rw e (
        omega (arith, serves-servers_at t q i u, serves-servers_at t' q i u, ap (tally_of i u) now))
]

-- In valid tables with room in the reference counts, if a call on an allocated interface node stores
-- a server, then it can be removed: that call returns true, with valid tables, in which every
-- interface has every server as often as before the two calls.
pub remove_address-store_address :
    (alloc : Allocator) (np ip port : ℕ) (n : IntfNode) (t t₁ : Tables)
    → IsSound alloc
    → IsValid t
    → HasRoom t
    → cell np t.nodes ≡ some n
    → store_address alloc np ip port t ≡ some (true, t₁)
    → (t₂ : Tables) × (remove_address np ip port t₁ ≡ some (true, t₂))
      × IsValid t₂
      × ((q i u : ℕ) → serves t₂ q i u ≡ serves t q i u)
remove_address-store_address alloc np ip port n t t₁ sound v room here stored =
    let (r, e, s) = store_address-Stores alloc np ip port n t sound v room here in
    let same : r ≡ (true, t₁) = cc in
    let s₁ = subst (Stores (Refused alloc n t) np ip port n t) same s in
    let added = Stores-serves (Refused alloc n t) np ip port n t t₁ here s₁ in
    let (n₁, e₁, size) = s₁.node in
    let ((b, t₂), e₂, d) = remove_address-Removes np ip port n₁ t₁ s₁.valid e₁ in
    let held = added np ip port in
    let found : b ≡ true = let a = d.answer in ground arith in
    (
      t₂,
      e₂ ∙ ap (λ b. some (b, t₂)) found,
      d.valid,
      λ q i u. let k = d.servers q i u in let a = added q i u in ground arith,
    )
