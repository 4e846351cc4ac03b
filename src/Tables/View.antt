-- ===== src/Tables/View.antt =====
-- The abstract tables: for each interface node the servers, each an address and a port, that its
-- pointers lead to.
use ops_ipapps.Base.{
  ℕ, ◌<◌, ◌≡◌, refl, ap, Option, none, some, List, [], ◌∷◌, map, arith, Option-cases, inl, inr,
}
use ops_ipapps.Tables.{ServerEntry, IntfNode, Tables}
use ops_ipapps.Tables.Heap.{cell}
use ops_ipapps.Tables.Arrays.{count}
use ops_ipapps.Tables.Valid.{live, refs, ref_count_of, IsValid, refs-le}

-- The address and the port of an entry; NULL or a freed entry has none.
abbrev pub key_of : Option ServerEntry → Option (ℕ × ℕ)
key_of none = none
key_of (some s) = some (s.ip_address, s.udp_port)

abbrev pub key_at : Tables → ℕ → Option (ℕ × ℕ)
key_at t p = key_of (cell p t.servers)

abbrev pub servers_of_node : Tables → Option IntfNode → Option (List (Option (ℕ × ℕ)))
servers_of_node t none = none
servers_of_node t (some n) = some (map (key_at t) (live n))

-- The servers of an interface node, if it is allocated.
unfoldable pub servers_at : Tables → ℕ → Option (List (Option (ℕ × ℕ)))
servers_at t np = servers_of_node t (cell np t.nodes)

-- Pointers that lead to the same servers.
pub map-same :
    (f g : ℕ → Option (ℕ × ℕ)) (ps : List ℕ)
    → ((a : ℕ) → 0 < count a ps → f a ≡ g a)
    → map f ps ≡ map g ps
map-same f g [] h = refl
map-same f g (p ∷ ps) h = ground (arith, h p, map-same f g ps (λ a c. h a (omega arith)))

-- A pointer that is held leads to an entry.
pub live-cell :
    (t : Tables) (a : ℕ)
    → IsValid t
    → 0 < refs a t.nodes
    → (s : ServerEntry) × (cell a t.servers ≡ some s)
live-cell t a v pos = elim (Option-cases (cell a t.servers)) [
  | inl e ↦ absurd (omega (arith, v.counted a, ap ref_count_of e))
  | inr held ↦ held
]

-- Every entry of the first tables that is held in both is the same in both.
abbrev pub SameKeys : Tables → Tables → Type 0
SameKeys t t' = (a : ℕ) → 0 < refs a t.nodes → 0 < refs a t'.nodes → key_at t' a ≡ key_at t a

-- A node that holds the same pointers in both holds the same servers.
pub same_servers :
    (t t' : Tables) (q : ℕ) (n : IntfNode)
    → SameKeys t t'
    → cell q t.nodes ≡ some n
    → cell q t'.nodes ≡ some n
    → servers_at t' q ≡ servers_at t q
unfolding servers_at
same_servers t t' q n same e e' =
    rw (e, e')
      (ap some (
        map-same (key_at t') (key_at t) (live n) (λ a c.
          same a (omega (arith, refs-le a q n t.nodes e))
            (omega (arith, refs-le a q n t'.nodes e')))))
