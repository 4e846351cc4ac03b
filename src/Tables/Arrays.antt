-- ===== src/Tables/Arrays.antt =====
-- The pointer arrays of the interfaces: what they hold after a write and after a deletion.
use ops_ipapps.Base.{
  ℕ, zero, suc, ◌+◌, ◌<◌, ◌≤◌, ◌≡◌, refl, some, List, [], ◌∷◌, ◌++◌, ◌==◌, if◌then◌else◌, length,
  set, get_elem?, arith,
}
use ops_ipapps.Tables.{take}

-- 1 for the address that is counted.
abbrev pub is_at : ℕ → ℕ → ℕ
is_at a p = if p == a then 1 else 0

-- How often an address stands among pointers.
abbrev pub count : ℕ → List ℕ → ℕ
count a [] = 0
count a (p ∷ ps) = is_at a p + count a ps

-- A pointer that is in the array.
pub in_range : (i : ℕ) (ps : List ℕ) → i < length ps → (p : ℕ) × (get_elem? ps i ≡ some p)
in_range i [] h = absurd (omega arith)
in_range zero (p ∷ ps) h = (p, refl)
in_range (suc i) (p ∷ ps) h = in_range i ps (omega arith)

pub take-set_end :
    (n p : ℕ) (ps : List ℕ) → n < length ps → take (n + 1) (set ps n p) ≡ take n ps ++ (p ∷ [])
take-set_end n p [] h = absurd (omega arith)
take-set_end zero p (q ∷ ps) h = refl
take-set_end (suc n) p (q ∷ ps) h = ground (arith, take-set_end n p ps)

pub take-set_behind : (n i p : ℕ) (ps : List ℕ) → n ≤ i → take n (set ps i p) ≡ take n ps
take-set_behind zero i p ps h = refl
take-set_behind (suc n) i p [] h = refl
take-set_behind (suc n) zero p (q ∷ ps) h = absurd (omega arith)
take-set_behind (suc n) (suc i) p (q ∷ ps) h = ground (arith, take-set_behind n i p ps)

-- A write in range trades one pointer for another.
pub count-take-set :
    (a n i p old : ℕ) (ps : List ℕ)
    → i < n
    → get_elem? ps i ≡ some old
    → count a (take n (set ps i p)) + is_at a old ≡ count a (take n ps) + is_at a p
count-take-set a zero i p old ps h e = absurd (omega arith)
count-take-set a (suc n) i p old [] h e = cc
count-take-set a (suc n) zero p old (q ∷ ps) h e = ground arith
count-take-set a (suc n) (suc i) p old (q ∷ ps) h e = ground (arith, count-take-set a n i p old ps)

pub count-take_suc :
    (a n last : ℕ) (ps : List ℕ)
    → get_elem? ps n ≡ some last
    → count a (take (n + 1) ps) ≡ count a (take n ps) + is_at a last
count-take_suc a n last [] e = cc
count-take_suc a zero last (q ∷ ps) e = ground arith
count-take_suc a (suc n) last (q ∷ ps) e = ground (arith, count-take_suc a n last ps)

pub get_elem?-take : (n i : ℕ) (ps : List ℕ) → i < n → get_elem? (take n ps) i ≡ get_elem? ps i
get_elem?-take zero i ps h = absurd (omega arith)
get_elem?-take (suc n) i [] h = refl
get_elem?-take (suc n) zero (p ∷ ps) h = refl
get_elem?-take (suc n) (suc i) (p ∷ ps) h = get_elem?-take n i ps (omega arith)

pub length-take : (n : ℕ) (ps : List ℕ) → n ≤ length ps → length (take n ps) ≡ n
length-take zero ps h = refl
length-take (suc n) [] h = absurd (omega arith)
length-take (suc n) (p ∷ ps) h = ground (arith, length-take n ps)
