-- ===== src/Rows/Deletion.antt =====
-- The handlers of deleted rows take from each interface the servers that no row keeps.
use ops_ipapps.Base.{
  ℕ, ◌<◌, ◌≡◌, Bool, false, ◌&&◌, Option, none, some, List, [], ◌∷◌, ◌==◌, if◌then◌else◌, Text,
}
use ops_ipapps.Tables.{IntfNode, Tables, max_servers}
use ops_ipapps.Tables.Heap.{cell}
use ops_ipapps.Tables.Valid.{IsValid}
use ops_ipapps.Tables.Tally.{serves}

-- No server has the address 0.
abbrev pub NoZero : Tables → Type 0
NoZero t = (q u : ℕ) → serves t q 0 u ≡ 0

-- The name under which a node stands in the table of names.
abbrev pub name_of : List (Text × ℕ) → ℕ → Option Text
name_of [] q = none
name_of ((name, np) ∷ ns) q = if np == q then some name else name_of ns q

-- Each name stands for a node of its own, which is allocated, has the name, and has a place free.
abbrev pub AllHeld : List (Text × ℕ) → Tables → Type 0
AllHeld [] t = Unit {0}
AllHeld ((name, np) ∷ ns) t =
    ((n : IntfNode) × (cell np t.nodes ≡ some n)
      × (n.port_name ≡ name)
      × (n.addr_count < max_servers))
    × (name_of ns np ≡ none)
    × AllHeld ns t

-- How often a server is left: none of those that are doomed under the interface's name.
abbrev pub left : (Text → ℕ → ℕ → Bool) → Option Text → ℕ → ℕ → ℕ → ℕ
left doomed none i u k = k
left doomed (some name) i u k = if doomed name i u then 0 else k

-- What a visit to an interface does to it.
pub record Visited (doomed : ℕ → ℕ → Bool) (np : ℕ) (t t' : Tables) : Type 0 where
  pub valid : IsValid t'
  pub servers :
      (q i u : ℕ) → serves t' q i u ≡ (if (np == q) && doomed i u then 0 else serves t q i u)
  pub others : (q : ℕ) → (np == q) ≡ false → cell q t'.nodes ≡ cell q t.nodes

pub record Walked (doomed : Text → ℕ → ℕ → Bool) (ns : List (Text × ℕ)) (t t' : Tables)
    : Type 0 where
  pub valid : IsValid t'
  pub servers : (q i u : ℕ) → serves t' q i u ≡ left doomed (name_of ns q) i u (serves t q i u)
