-- ===== src/Tables/Share.antt =====
-- The entry that an interface gets for a server: shared if there is one, and created otherwise.
use ops_ipapps.Base.{
  ℕ, ◌+◌, ◌%◌, ◌^◌, ◌<◌, ◌≤◌, ◌≡◌, ◌≢◌, refl, ◌∙◌, ap, Option, none, some, ◌∷◌, ◌==◌, if◌then◌else◌,
  arith,
}
use ops_ipapps.Tables.{ServerEntry, Tables, Allocator, addresses, new_server, get_server_entry}
use ops_ipapps.Tables.Store.{insert_server, add_server_entry, retain, share}
use ops_ipapps.Tables.Heap.{Cells, cell, write, occupied, cell-eq-none, cell-write, occupied-write}
use ops_ipapps.Tables.Arrays.{is_at}
use ops_ipapps.Tables.Valid.{ref_count_of, AllCounted, entries, IsValid}
use ops_ipapps.Tables.Entries.{
  IsSound, HasKey, occupied-count, get_server_entry-cell, entries-eq-zero, entries-write,
  AllCounted-write,
}

-- One more reference to `p`, which has the address and the port; all else as it was.
pub record Shared (ip port p : ℕ) (cs cs' : Cells ServerEntry) : Type 0 where
  pub entry : (s : ServerEntry) × (cell p cs' ≡ some s) × HasKey ip port s
  pub one_more : (a : ℕ) → ref_count_of (cell a cs') ≡ ref_count_of (cell a cs) + is_at a p
  pub kept :
      (a : ℕ) (s : ServerEntry)
      → cell a cs ≡ some s
      → (s' : ServerEntry) × (cell a cs' ≡ some s') × HasKey s.ip_address s.udp_port s'
  pub positive : AllCounted cs'
  pub distinct : (a : ℕ) → occupied a cs' ≤ 1
  pub null : cell 0 cs' ≡ none
  pub unique : (ip' port' : ℕ) → entries ip' port' cs' ≤ 1

retained : ServerEntry → ServerEntry
retained s = record s { ref_count = (s.ref_count + 1) % 2 ^ 16 }

retain-Shared :
    (ip port p : ℕ) (s : ServerEntry) (t : Tables)
    → IsValid t
    → cell p t.servers ≡ some s
    → HasKey ip port s
    → s.ref_count + 1 < 65536
    → Shared ip port p t.servers (write p (retained s) t.servers)
unfolding retained
retain-Shared ip port p s t v e key small = record {
  entry = (retained s, ground (arith, cell-write p p (retained s) s t.servers), key);
  one_more = λ a. ground (arith, cell-write p a (retained s) s t.servers);
  kept = λ a r h. (
    if p == a then retained s else r,
    ground (arith, cell-write p a (retained s) s t.servers),
    (ground arith, ground arith),
  );
  positive = AllCounted-write p (retained s) t.servers v.positive (omega arith);
  distinct = λ a. omega (arith, occupied-write p a (retained s) t.servers, v.distinct_servers a);
  null = let z = v.null_server in ground (arith, cell-write p 0 (retained s) s t.servers);
  unique = λ ip' port'.
      omega
        (arith, entries-write ip' port' p (retained s) s t.servers e refl refl, v.unique ip' port');
}

insert-Shared :
    (ip port p : ℕ) (t : Tables)
    → IsValid t
    → get_server_entry ip port t.servers ≡ none
    → p ≢ 0
    → occupied p t.servers ≡ 0
    → Shared ip port p t.servers ((p, new_server ip port) ∷ t.servers)
unfolding cell occupied entries
insert-Shared ip port p t v miss ne free_at = record {
  entry = (new_server ip port, ground arith, (refl, refl));
  one_more = λ a. ground (arith, cell-eq-none p t.servers);
  kept = λ a r h. (r, ground (arith, cell-eq-none p t.servers), (refl, refl));
  positive = (omega arith, v.positive);
  distinct = λ a. ground (arith, v.distinct_servers a);
  null = let z = v.null_server in ground arith;
  unique = λ ip' port'. ground (arith, v.unique ip' port', entries-eq-zero ip port t.servers);
}

-- What `share` returns: an entry with one more reference, or NULL with the tables as they were.
pub data Shares (alloc : Allocator) (ip port : ℕ) (t : Tables) : Option ℕ × Tables → Type 0 where
  shared :
      (p : ℕ) (cs : Cells ServerEntry)
      → Shared ip port p t.servers cs
      → Shares alloc ip port t (some p, record t { servers = cs })
  no_memory : alloc.malloc (addresses t.servers) ≡ none → Shares alloc ip port t (none, t)

-- The reference counts have room for one more.
abbrev pub HasRoom : Tables → Type 0
HasRoom t = (a : ℕ) → ref_count_of (cell a t.servers) + 1 < 65536

module _ (alloc : Allocator) (sound : IsSound alloc) (ip port : ℕ) (t : Tables)
    (v : IsValid t) where
  insert-Shares :
      (o : Option ℕ)
      → alloc.malloc (addresses t.servers) ≡ o
      → get_server_entry ip port t.servers ≡ none
      → (r : Option ℕ × Tables) × (insert_server o ip port t ≡ some r) × Shares alloc ip port t r
  unfolding insert_server
  insert-Shares none e miss = (_, refl, no_memory e)
  insert-Shares (some p) e miss =
      let (ne, out) = sound.fresh (addresses t.servers) p e in
      (_, refl, shared p _ (insert-Shared ip port p t v miss ne (occupied-count p t.servers ∙ out)))

  share-Shares :
      (o : Option ℕ)
      → HasRoom t
      → get_server_entry ip port t.servers ≡ o
      → (r : Option ℕ × Tables) × (share alloc ip port o t ≡ some r) × Shares alloc ip port t r
  unfolding share add_server_entry retain retained
  share-Shares none room miss = insert-Shares (alloc.malloc (addresses t.servers)) refl miss
  share-Shares (some p) room found =
      let (s, e, key) = get_server_entry-cell ip port p t.servers v.distinct_servers found in
      (
        _,
        rw (e, retain) refl,
        shared p _ (
            retain-Shared ip port p s t v e key
              (let small = room p in omega (arith, ap ref_count_of e))),
      )

  pub share_lem :
      HasRoom t
      → (r : Option ℕ × Tables) × (share alloc ip port (get_server_entry ip port t.servers) t
          ≡ some r)
        × Shares alloc ip port t r
  share_lem room = share-Shares (get_server_entry ip port t.servers) room refl
