-- ===== src/Tables/Release.antt =====
-- Finding the pointer to a server in an interface's array, and giving its reference back.
use ops_ipapps.Base.{
  ℕ, suc, ◌+◌, ◌-◌, ◌<◌, ◌≤◌, ◌≡◌, refl, ◌∙◌, sym, ap, true, false, Option, none, some, List, [],
  ◌∷◌, ◌==◌, get_elem?, arith, if_elim, Bool-cases, inl, inr,
}
use ops_ipapps.Tables.{ServerEntry, Tables, is_entry, or_later, find_ref, release_entry, release}
use ops_ipapps.Tables.Heap.{
  Cells, cell, write, free, occupied, cell-write, cell-free, occupied-write, occupied-free-le,
}
use ops_ipapps.Tables.Arrays.{is_at, count}
use ops_ipapps.Tables.Valid.{ref_count_of, AllCounted, entries, IsValid}
use ops_ipapps.Tables.Entries.{
  entries-write, entries-free-le, AllCounted-cell, AllCounted-write, AllCounted-free,
}
use ops_ipapps.Tables.View.{key_of}
use ops_ipapps.Tables.Tally.{sum_over, hit, has_key, is_at_self}

-- What the search returns: an index with the pointer and its entry, or none if no pointer leads to
-- the server.
pub data Found (cs : Cells ServerEntry) (ip port : ℕ) (ps : List ℕ) : Option ℕ → Type 0 where
  found :
      (i p : ℕ) (s : ServerEntry)
      → get_elem? ps i ≡ some p
      → cell p cs ≡ some s
      → has_key (cell p cs) ip port ≡ true
      → Found cs ip port ps (some i)
  missing : sum_over (λ a. hit (cell a cs) ip port) ps ≡ 0 → Found cs ip port ps none

pub find_ref_lem :
    (cs : Cells ServerEntry) (ip port : ℕ) (ps : List ℕ)
    → ((a : ℕ) → 0 < count a ps → (s : ServerEntry) × (cell a cs ≡ some s))
    → (o : Option ℕ) × (find_ref cs ip port ps ≡ some o) × Found cs ip port ps o
unfolding find_ref is_entry or_later
find_ref_lem cs ip port [] h = (none, refl, missing refl)
find_ref_lem cs ip port (p ∷ ps) h =
    let (s, e) = h p (omega (arith, is_at_self p)) in
    let (o, r, out) = find_ref_lem cs ip port ps (λ a c. h a (omega arith)) in
    elim (Bool-cases (has_key (cell p cs) ip port)) [
      | inl matches ↦
          let at : has_key (some s) ip port ≡ true =
            ap (λ o. has_key o ip port) (sym e) ∙ matches in
          (some 0, rw (e, at) refl, found 0 p s refl e matches)
      | inr miss ↦
          let at : has_key (some s) ip port ≡ false = ap (λ o. has_key o ip port) (sym e) ∙ miss in
          behind o r out miss (rw (e, at, r) refl)
    ]
  where
    behind :
        (o : Option ℕ)
        → find_ref cs ip port ps ≡ some o
        → Found cs ip port ps o
        → has_key (cell p cs) ip port ≡ false
        → find_ref cs ip port (p ∷ ps) ≡ or_later (some false) (some o)
        → (o' : Option ℕ) × (find_ref cs ip port (p ∷ ps) ≡ some o') × Found cs ip port (p ∷ ps) o'
    behind none r (missing z) miss e = (none, e ∙ refl, missing (rw miss (omega (arith, z))))
    behind (some i) r (found j q s at held key) miss e =
        (some (suc j), e ∙ refl, found (suc j) q s at held key)

-- One reference less to `p`; an entry that still has references is as it was.
pub record Released (p : ℕ) (cs cs' : Cells ServerEntry) : Type 0 where
  pub one_less : (a : ℕ) → ref_count_of (cell a cs') + is_at a p ≡ ref_count_of (cell a cs)
  pub kept : (a : ℕ) → 0 < ref_count_of (cell a cs') → key_of (cell a cs') ≡ key_of (cell a cs)
  pub positive : AllCounted cs'
  pub distinct : (a : ℕ) → occupied a cs' ≤ 1
  pub null : cell 0 cs' ≡ none
  pub unique : (ip port : ℕ) → entries ip port cs' ≤ 1

module _ (p : ℕ) (s : ServerEntry) (t : Tables) (v : IsValid t)
    (here : cell p t.servers ≡ some s) where
  freed-Released : s.ref_count ≡ 1 → Released p t.servers (free p t.servers)
  freed-Released one = record {
    one_less = λ a. ground (arith, cell-free p a t.servers, v.distinct_servers a);
    kept = λ a h. ground (arith, cell-free p a t.servers, v.distinct_servers a);
    positive = AllCounted-free p t.servers v.positive;
    distinct = λ a. omega (arith, occupied-free-le p a t.servers, v.distinct_servers a);
    null = let z = v.null_server in ground (arith, cell-free p 0 t.servers, v.distinct_servers 0);
    unique = λ i u. omega (arith, entries-free-le i u p t.servers, v.unique i u);
  }

  abbrev less : ServerEntry
  less = record s { ref_count = s.ref_count - 1 }

  written-Released : 1 < s.ref_count → Released p t.servers (write p less t.servers)
  written-Released many = record {
    one_less = λ a. ground (arith, cell-write p a less s t.servers);
    kept = λ a h. ground (arith, cell-write p a less s t.servers);
    positive = AllCounted-write p less t.servers v.positive (omega arith);
    distinct = λ a. omega (arith, occupied-write p a less t.servers, v.distinct_servers a);
    null = let z = v.null_server in ground (arith, cell-write p 0 less s t.servers);
    unique =
        λ i u. omega (arith, entries-write i u p less s t.servers here refl refl, v.unique i u);
  }

  abbrev Releases : Option (Unit {0} × Tables) → Type 0
  Releases o =
      (cs : Cells ServerEntry) × (o ≡ some (tt, record t { servers = cs }))
      × Released p t.servers cs

  pub release_lem : Releases (release p t)
  unfolding release release_entry
  release_lem =
      let pos : 0 < s.ref_count = AllCounted-cell p s t.servers v.positive here in
      rw here (
        if_elim Releases (s.ref_count == 0) _ _ (λ z. absurd (ground arith))
          (λ nz.
            if_elim Releases (s.ref_count == 1) _ _
              (λ one. (_, refl, freed-Released (ground arith)))
              (λ many. (_, refl, written-Released (ground arith)))))
