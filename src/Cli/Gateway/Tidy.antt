-- ===== src/Cli/Gateway/Tidy.antt =====
-- Properties of all rows of a table, and lists of distinct servers.
use ops_ipapps.Base.{
  ◌≡◌, refl, ap, suc, Bool, true, false, Option, none, some, List, [], ◌∷◌, ◌++◌, length, Text,
  arith, Bool-cases, inl, inr,
}
use ops_ipapps.Relay.{same_text}
use ops_ipapps.Cli.Servers.{Row, first_row, instead, change_row, without}
use ops_ipapps.Cli.ServerConfig.Totals.{same_text→eq, contains}

module _ {E : Type 0} (P : Row E → Type 0) where
  abbrev pub AllRows : List (Row E) → Type 0
  AllRows [] = Unit
  AllRows (row ∷ rows) = P row × AllRows rows

  abbrev pub IfRow : Option (Row E) → Type 0
  IfRow none = Unit
  IfRow (some row) = P row

  pub AllRows-append :
      (rows : List (Row E)) (row : Row E) → AllRows rows → P row → AllRows (rows ++ row ∷ [])
  AllRows-append [] row h p = (p, tt)
  AllRows-append (r ∷ rows) row (q, h) p = (q, AllRows-append rows row h p)

  pub first_row-AllRows :
      (test : Row E → Bool) (rows : List (Row E)) → AllRows rows → IfRow (first_row test rows)
  first_row-AllRows test [] h = tt
  first_row-AllRows test (r ∷ rows) (q, h) = elim (Bool-cases (test r)) [
    | inl t ↦ simp t q
    | inr t ↦ simp t (first_row-AllRows test rows h)
  ]

  instead-AllRows :
      (new : Option (Row E)) (rows : List (Row E))
      → IfRow new
      → AllRows rows
      → AllRows (instead new rows)
  instead-AllRows none rows p h = h
  instead-AllRows (some row) rows p h = (p, h)

  pub change_row-AllRows :
      (test : Row E → Bool) (new : Option (Row E)) (rows : List (Row E))
      → IfRow new
      → AllRows rows
      → AllRows (change_row test new rows)
  change_row-AllRows test new [] p h = tt
  change_row-AllRows test new (r ∷ rows) p (q, h) = elim (Bool-cases (test r)) [
    | inl t ↦ simp t (instead-AllRows new rows p h)
    | inr t ↦ simp t (q, change_row-AllRows test new rows p h)
  ]

abbrev pub Distinct : List Text → Type 0
Distinct [] = Unit
Distinct (x ∷ xs) = (contains x xs ≡ false) × Distinct xs

contains-append_other :
    (x y : Text) (xs : List Text)
    → contains x xs ≡ false
    → same_text x y ≡ false
    → contains x (xs ++ y ∷ []) ≡ false
contains-append_other x y [] c e = ground arith
contains-append_other x y (z ∷ xs) c e = ground (arith, contains-append_other x y xs)

same_text_sym : (a b : Text) → same_text a b ≡ same_text b a
same_text_sym [] [] = refl
same_text_sym [] (y ∷ ys) = refl
same_text_sym (x ∷ xs) [] = refl
same_text_sym (x ∷ xs) (y ∷ ys) = ground (arith, same_text_sym xs ys)

pub Distinct-append :
    (address : Text) (servers : List Text)
    → Distinct servers
    → contains address servers ≡ false
    → Distinct (servers ++ address ∷ [])
Distinct-append address [] d c = (refl, tt)
Distinct-append address (x ∷ xs) (n, d) c =
    let apart : same_text x address ≡ false = ground (arith, same_text_sym x address) in
    let later : contains address xs ≡ false = ground arith in
    (contains-append_other x address xs n apart, Distinct-append address xs d later)

contains-without :
    (x address : Text) (servers : List Text)
    → contains x servers ≡ false
    → contains x (without address servers) ≡ false
contains-without x address [] c = refl
contains-without x address (y ∷ ys) c = ground (arith, contains-without x address ys)

pub Distinct-without :
    (address : Text) (servers : List Text) → Distinct servers → Distinct (without address servers)
Distinct-without address [] d = tt
Distinct-without address (x ∷ xs) (n, d) = elim (Bool-cases (same_text address x)) [
  | inl e ↦ simp e (Distinct-without address xs d)
  | inr e ↦ simp e (contains-without x address xs n, Distinct-without address xs d)
]

without-absent :
    (address : Text) (servers : List Text)
    → contains address servers ≡ false
    → without address servers ≡ servers
without-absent address [] c = refl
without-absent address (x ∷ xs) c = ground (arith, without-absent address xs)

-- From distinct servers exactly one goes.
pub length-without_one :
    (address : Text) (servers : List Text)
    → Distinct servers
    → contains address servers ≡ true
    → suc (length (without address servers)) ≡ length servers
length-without_one address [] d c = cc
length-without_one address (x ∷ xs) (n, d) c = elim (Bool-cases (same_text address x)) [
  | inl e ↦
      let gone : contains address xs ≡ false = rw (same_text→eq address x e) n in
      simp e (ap (λ servers. suc (length servers)) (without-absent address xs gone))
  | inr e ↦
      let later : contains address xs ≡ true = ground arith in
      simp e (ap suc (length-without_one address xs d later))
]
