-- ===== src/Packet/Laws.antt =====
-- Reading back what was written to the buffer.
use ops_ipapps.Base.{ℕ, ◌+◌, ◌-◌, ◌≤◌, ◌<◌, ◌≡◌, ◌⊎◌, refl, List, [], ◌∷◌, arith, length, ◌++◌}
use ops_ipapps.Packet.{Mem, store8, store_bytes, memmove, load32}

pub store8_other : (m : Mem) (a v b : ℕ) → ¬ (a ≡ b) → store8 m a v b ≡ m b
unfolding store8
store8_other m a v b h = ground arith

pub store8_self : (m : Mem) (a v : ℕ) → store8 m a v a ≡ v
unfolding store8
store8_self m a v = ground arith

pub store_bytes_below : (m : Mem) (a : ℕ) (vs : List ℕ) (b : ℕ) → b < a → store_bytes m a vs b ≡ m b
unfolding store_bytes
store_bytes_below m a [] b h = refl
store_bytes_below m a (v ∷ vs) b h =
    ground (arith, store_bytes_below (store8 m a v) (a + 1) vs b, store8_other m a v b)

pub store_bytes_above :
    (m : Mem) (a : ℕ) (vs : List ℕ) (b : ℕ) → a + length vs ≤ b → store_bytes m a vs b ≡ m b
unfolding store_bytes
store_bytes_above m a [] b h = refl
store_bytes_above m a (v ∷ vs) b h =
    ground (arith, store_bytes_above (store8 m a v) (a + 1) vs b, store8_other m a v b)

-- The bytes that stand at an address.
abbrev pub Holds : Mem → ℕ → List ℕ → Type 0
Holds m a [] = Unit {0}
Holds m a (v ∷ vs) = (m a ≡ v) × Holds m (a + 1) vs

pub Holds-store_bytes : (m : Mem) (a : ℕ) (vs : List ℕ) → Holds (store_bytes m a vs) a vs
unfolding store_bytes
Holds-store_bytes m a [] = tt
Holds-store_bytes m a (v ∷ vs) = (
  ground (arith, store_bytes_below (store8 m a v) (a + 1) vs a, store8_self m a v),
  Holds-store_bytes (store8 m a v) (a + 1) vs,
)

-- Memory that agrees on the range holds the same bytes.
pub Holds-same :
    (m n : Mem) (a : ℕ) (vs : List ℕ)
    → ((b : ℕ) → a ≤ b → b < a + length vs → n b ≡ m b)
    → Holds m a vs
    → Holds n a vs
Holds-same m n a [] same h = tt
Holds-same m n a (v ∷ vs) same h = (
  ground (arith, same a),
  Holds-same m n (a + 1) vs (λ b l u. same b (omega arith) (omega arith)) h.1,
)

pub Holds-append :
    (m : Mem) (a : ℕ) (xs ys : List ℕ)
    → Holds m a xs
    → Holds m (a + length xs) ys
    → Holds m a (xs ++ ys)
Holds-append m a [] ys hx hy = ground (arith, hy)
Holds-append m a (x ∷ xs) ys hx hy = (hx.0, Holds-append m (a + 1) xs ys hx.1 (ground (arith, hy)))

pub Holds-split :
    (m : Mem) (a : ℕ) (xs ys : List ℕ)
    → Holds m a (xs ++ ys)
    → Holds m a xs × Holds m (a + length xs) ys
Holds-split m a [] ys h = (tt, ground (arith, h))
Holds-split m a (x ∷ xs) ys h =
    let (l, r) = Holds-split m (a + 1) xs ys h.1 in ((h.0, l), ground (arith, r))

pub memmove_outside :
    (m : Mem) (dst src n a : ℕ) → (a < dst) ⊎ (dst + n ≤ a) → memmove m dst src n a ≡ m a
unfolding memmove
memmove_outside m dst src n a h = ground arith

pub memmove_inside :
    (m : Mem) (dst src n a : ℕ)
    → dst ≤ a
    → a < dst + n
    → memmove m dst src n a ≡ m (src + (a - dst))
unfolding memmove
memmove_inside m dst src n a l u = ground arith

-- A copy holds what the source held.
Holds-memmove_from :
    (m : Mem) (dst src n i : ℕ) (vs : List ℕ)
    → i + length vs ≤ n
    → Holds m (src + i) vs
    → Holds (memmove m dst src n) (dst + i) vs
Holds-memmove_from m dst src n i [] fits h = tt
Holds-memmove_from m dst src n i (v ∷ vs) fits h = (
  ground (arith, memmove_inside m dst src n (dst + i)),
  ground (arith, Holds-memmove_from m dst src n (i + 1) vs),
)

pub Holds-memmove :
    (m : Mem) (dst src : ℕ) (vs : List ℕ)
    → Holds m src vs
    → Holds (memmove m dst src (length vs)) dst vs
Holds-memmove m dst src vs h = ground (arith, Holds-memmove_from m dst src (length vs) 0 vs)

pub load32-same :
    (m n : Mem) (a : ℕ) → ((b : ℕ) → a ≤ b → b < a + 4 → n b ≡ m b) → load32 n a ≡ load32 m a
unfolding load32
load32-same m n a same = rw (
  same a (omega arith) (omega arith),
  same (a + 1) (omega arith) (omega arith),
  same (a + 2) (omega arith) (omega arith),
  same (a + 3) (omega arith) (omega arith),
)

pub store_bytes-append :
    (m : Mem) (a : ℕ) (xs ys : List ℕ)
    → store_bytes m a (xs ++ ys) ≡ store_bytes (store_bytes m a xs) (a + length xs) ys
unfolding store_bytes
store_bytes-append m a [] ys = ground arith
store_bytes-append m a (x ∷ xs) ys = ground (arith, store_bytes-append (store8 m a x) (a + 1) xs ys)
