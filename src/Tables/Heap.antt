-- ===== src/Tables/Heap.antt =====
-- Memory cells by address: what the program has allocated and not freed.
use ops_ipapps.Base.{
  ℕ, ◌+◌, ◌≤◌, ◌≡◌, refl, Option, none, some, List, [], ◌∷◌, ◌==◌, if◌then◌else◌, arith,
}

abbrev pub Cells : Type 0 → Type 0
Cells V = List (ℕ × V)

module _ {V : Type 0} where
  -- A dangling pointer, or NULL, has no cell.
  unfoldable pub cell : ℕ → Cells V → Option V
  cell p [] = none
  cell p ((q, v) ∷ cs) = if q == p then some v else cell p cs

  unfoldable pub write : ℕ → V → Cells V → Cells V
  write p v [] = []
  write p v ((q, w) ∷ cs) = if q == p then (q, v) ∷ cs else (q, w) ∷ write p v cs

  unfoldable pub free : ℕ → Cells V → Cells V
  free p [] = []
  free p ((q, v) ∷ cs) = if q == p then cs else (q, v) ∷ free p cs

  -- How many cells stand at an address.
  unfoldable pub occupied : ℕ → Cells V → ℕ
  occupied p [] = 0
  occupied p ((q, v) ∷ cs) = (if q == p then 1 else 0) + occupied p cs

  pub cell-write :
      (p q : ℕ) (v old : V) (cs : Cells V)
      → cell p cs ≡ some old
      → cell q (write p v cs) ≡ (if p == q then some v else cell q cs)
  unfolding cell write
  cell-write p q v old [] h = cc
  cell-write p q v old ((r, w) ∷ cs) h = ground (arith, cell-write p q v old cs)

  pub occupied-write : (p q : ℕ) (v : V) (cs : Cells V) → occupied q (write p v cs) ≡ occupied q cs
  unfolding occupied write
  occupied-write p q v [] = refl
  occupied-write p q v ((r, w) ∷ cs) = ground (arith, occupied-write p q v cs)

  pub cell-eq-none : (p : ℕ) (cs : Cells V) → occupied p cs ≡ 0 → cell p cs ≡ none
  unfolding cell occupied
  cell-eq-none p [] h = refl
  cell-eq-none p ((q, v) ∷ cs) h = ground (arith, cell-eq-none p cs)

  pub occupied-eq-zero : (p : ℕ) (cs : Cells V) → cell p cs ≡ none → occupied p cs ≡ 0
  unfolding cell occupied
  occupied-eq-zero p [] h = refl
  occupied-eq-zero p ((q, v) ∷ cs) h = ground (arith, occupied-eq-zero p cs)

  pub cell-free :
      (p q : ℕ) (cs : Cells V)
      → occupied q cs ≤ 1
      → cell q (free p cs) ≡ (if p == q then none else cell q cs)
  unfolding cell free occupied
  cell-free p q [] h = ground arith
  cell-free p q ((r, v) ∷ cs) h = ground (arith, cell-free p q cs, cell-eq-none q cs)

  pub occupied-free-le : (p q : ℕ) (cs : Cells V) → occupied q (free p cs) ≤ occupied q cs
  unfolding occupied free
  occupied-free-le p q [] = omega arith
  occupied-free-le p q ((r, v) ∷ cs) = ground (arith, occupied-free-le p q cs)
