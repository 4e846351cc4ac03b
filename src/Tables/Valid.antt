-- ===== src/Tables/Valid.antt =====
-- When the tables fit each other: every entry counts the pointers to it.
use ops_ipapps.Base.{
  ℕ, ◌+◌, ◌<◌, ◌≤◌, ◌≡◌, refl, ◌&&◌, Option, none, some, List, [], ◌∷◌, ◌==◌, if◌then◌else◌, length,
  arith,
}
use ops_ipapps.Tables.{ServerEntry, IntfNode, Tables, pointers, max_servers}
use ops_ipapps.Tables.Heap.{Cells, cell, write, free, occupied}
use ops_ipapps.Tables.Arrays.{count, length-take}

-- The pointers that an interface holds.
abbrev pub live : IntfNode → List ℕ
live n = pointers n.server_array n.addr_count

-- The pointers of all interfaces to an address.
unfoldable pub refs : ℕ → Cells IntfNode → ℕ
refs a [] = 0
refs a ((p, n) ∷ ns) = count a (live n) + refs a ns

-- The reference count at an address, zero if there is no entry.
abbrev pub ref_count_of : Option ServerEntry → ℕ
ref_count_of none = 0
ref_count_of (some s) = s.ref_count

-- The array, if there is one, is a block of 16, and has room for the pointers.
abbrev pub IsBlock : Option (List ℕ) → ℕ → Type 0
IsBlock none n = n ≡ 0
IsBlock (some array) n = (length array ≡ max_servers) × (n ≤ max_servers)

abbrev pub IsShaped : IntfNode → Type 0
IsShaped n = IsBlock n.server_array n.addr_count

abbrev pub AllShaped : Cells IntfNode → Type 0
AllShaped [] = Unit {0}
AllShaped ((p, n) ∷ ns) = IsShaped n × AllShaped ns

-- No entry is kept without a reference.
abbrev pub AllCounted : Cells ServerEntry → Type 0
AllCounted [] = Unit {0}
AllCounted ((p, s) ∷ cs) = (0 < s.ref_count) × AllCounted cs

-- How many entries there are for an address and a port.
unfoldable pub entries : ℕ → ℕ → Cells ServerEntry → ℕ
entries ip port [] = 0
entries ip port ((p, s) ∷ cs) =
    (if (s.ip_address == ip) && (s.udp_port == port) then 1 else 0) + entries ip port cs

pub record IsValid (t : Tables) : Type 0 where
  pub counted : (a : ℕ) → refs a t.nodes ≡ ref_count_of (cell a t.servers)
  pub positive : AllCounted t.servers
  pub shaped : AllShaped t.nodes
  pub distinct_servers : (a : ℕ) → occupied a t.servers ≤ 1
  pub distinct_nodes : (a : ℕ) → occupied a t.nodes ≤ 1
  pub null_server : cell 0 t.servers ≡ none
  pub unique : (ip port : ℕ) → entries ip port t.servers ≤ 1

pub refs-write :
    (a p : ℕ) (n old : IntfNode) (ns : Cells IntfNode)
    → cell p ns ≡ some old
    → refs a (write p n ns) + count a (live old) ≡ refs a ns + count a (live n)
unfolding refs cell write
refs-write a p n old [] e = cc
refs-write a p n old ((q, m) ∷ ns) e = ground (arith, refs-write a p n old ns)

pub refs-free :
    (a p : ℕ) (old : IntfNode) (ns : Cells IntfNode)
    → cell p ns ≡ some old
    → refs a (free p ns) + count a (live old) ≡ refs a ns
unfolding refs cell free
refs-free a p old [] e = cc
refs-free a p old ((q, m) ∷ ns) e = ground (arith, refs-free a p old ns)

pub refs-le :
    (a p : ℕ) (old : IntfNode) (ns : Cells IntfNode)
    → cell p ns ≡ some old
    → count a (live old) ≤ refs a ns
unfolding refs cell
refs-le a p old [] e = cc
refs-le a p old ((q, m) ∷ ns) e = ground (arith, refs-le a p old ns)

pub AllShaped-cell :
    (p : ℕ) (n : IntfNode) (ns : Cells IntfNode) → AllShaped ns → cell p ns ≡ some n → IsShaped n
unfolding cell
AllShaped-cell p n [] h e = cc
AllShaped-cell p n ((q, m) ∷ ns) h e = ground (arith, AllShaped-cell p n ns h.1)

pub AllShaped-write :
    (p : ℕ) (n : IntfNode) (ns : Cells IntfNode)
    → AllShaped ns
    → IsShaped n
    → AllShaped (write p n ns)
unfolding write
AllShaped-write p n [] h s = tt
AllShaped-write p n ((q, m) ∷ ns) h s = ground (arith, AllShaped-write p n ns h.1 s)

pub AllShaped-free : (p : ℕ) (ns : Cells IntfNode) → AllShaped ns → AllShaped (free p ns)
unfolding free
AllShaped-free p [] h = tt
AllShaped-free p ((q, m) ∷ ns) h = ground (arith, AllShaped-free p ns h.1)

pub length-live : (n : IntfNode) → IsShaped n → length (live n) ≡ n.addr_count
length-live n shape = of_block n.server_array n.addr_count shape
  where
    of_block : (o : Option (List ℕ)) (k : ℕ) → IsBlock o k → length (pointers o k) ≡ k
    of_block none k z = rw z refl
    of_block (some array) k b = length-take k array (let (len, le) = b in omega arith)
