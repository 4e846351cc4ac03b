-- ===== src/Tables/Entries.antt =====
-- The server entries: looking one up, and what a change of one leaves of the others.
use ops_ipapps.Base.{
  ℕ, ◌<◌, ◌≤◌, ◌≡◌, ◌≢◌, refl, ◌&&◌, none, some, List, [], ◌∷◌, ◌==◌, arith, length, Bool-cases,
  inl, inr,
}
use ops_ipapps.Tables.{ServerEntry, Tables, Allocator, addresses, max_servers, get_server_entry}
use ops_ipapps.Tables.Heap.{Cells, cell, write, free, occupied, cell-eq-none}
use ops_ipapps.Tables.Arrays.{count}
use ops_ipapps.Tables.Valid.{AllCounted, entries}

-- What the C library promises of the blocks it hands out.
pub record IsSound (a : Allocator) : Type 0 where
  pub fresh : (used : List ℕ) (p : ℕ) → a.malloc used ≡ some p → (p ≢ 0) × (count p used ≡ 0)
  pub block :
      (t : Tables) (array : List ℕ) → a.malloc_array t ≡ some array → length array ≡ max_servers

pub occupied-count : {V : Type 0} (p : ℕ) (cs : Cells V) → occupied p cs ≡ count p (addresses cs)
unfolding occupied
occupied-count p [] = refl
occupied-count p ((q, v) ∷ cs) = ground (arith, occupied-count p cs)

abbrev pub HasKey : ℕ → ℕ → ServerEntry → Type 0
HasKey ip port s = (s.ip_address ≡ ip) × (s.udp_port ≡ port)

pub get_server_entry-cell :
    (ip port p : ℕ) (cs : Cells ServerEntry)
    → ((a : ℕ) → occupied a cs ≤ 1)
    → get_server_entry ip port cs ≡ some p
    → (s : ServerEntry) × (cell p cs ≡ some s) × HasKey ip port s
unfolding get_server_entry cell occupied
get_server_entry-cell ip port p [] d e = absurd (cc)
get_server_entry-cell ip port p ((q, s) ∷ cs) d e =
    elim (Bool-cases ((s.ip_address == ip) && (s.udp_port == port))) [
      | inl hit ↦ (s, ground arith, (ground arith, ground arith))
      | inr miss ↦
          let (s', held, key) =
            get_server_entry-cell ip port p cs (λ a. omega (arith, d a)) (ground arith) in
          (s', ground (arith, d p, cell-eq-none p cs), key)
    ]

pub entries-eq-zero :
    (ip port : ℕ) (cs : Cells ServerEntry)
    → get_server_entry ip port cs ≡ none
    → entries ip port cs ≡ 0
unfolding get_server_entry entries
entries-eq-zero ip port [] e = refl
entries-eq-zero ip port ((q, s) ∷ cs) e = ground (arith, entries-eq-zero ip port cs)

pub entries-write :
    (ip port p : ℕ) (s old : ServerEntry) (cs : Cells ServerEntry)
    → cell p cs ≡ some old
    → s.ip_address ≡ old.ip_address
    → s.udp_port ≡ old.udp_port
    → entries ip port (write p s cs) ≡ entries ip port cs
unfolding entries write cell
entries-write ip port p s old [] e i u = refl
entries-write ip port p s old ((q, r) ∷ cs) e i u = ground (arith, entries-write ip port p s old cs)

pub entries-free-le :
    (ip port p : ℕ) (cs : Cells ServerEntry) → entries ip port (free p cs) ≤ entries ip port cs
unfolding entries free
entries-free-le ip port p [] = omega arith
entries-free-le ip port p ((q, r) ∷ cs) = ground (arith, entries-free-le ip port p cs)

pub AllCounted-cell :
    (p : ℕ) (s : ServerEntry) (cs : Cells ServerEntry)
    → AllCounted cs
    → cell p cs ≡ some s
    → 0 < s.ref_count
unfolding cell
AllCounted-cell p s [] h e = cc
AllCounted-cell p s ((q, r) ∷ cs) h e = ground (arith, AllCounted-cell p s cs h.1)

pub AllCounted-write :
    (p : ℕ) (s : ServerEntry) (cs : Cells ServerEntry)
    → AllCounted cs
    → 0 < s.ref_count
    → AllCounted (write p s cs)
unfolding write
AllCounted-write p s [] h k = tt
AllCounted-write p s ((q, r) ∷ cs) h k = ground (arith, AllCounted-write p s cs h.1 k)

pub AllCounted-free : (p : ℕ) (cs : Cells ServerEntry) → AllCounted cs → AllCounted (free p cs)
unfolding free
AllCounted-free p [] h = tt
AllCounted-free p ((q, r) ∷ cs) h = ground (arith, AllCounted-free p cs h.1)
