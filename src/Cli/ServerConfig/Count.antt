-- ===== src/Cli/ServerConfig/Count.antt =====
-- How often each address stands in the table of forwarded protocols, and what a command makes of it.
use ops_ipapps.Base.{
  ℕ, suc, ◌+◌, ◌≤◌, ◌≡◌, refl, ap, subst, Bool, true, false, ◌&&◌, Option, none, some, List, [],
  ◌∷◌, ◌++◌, ◌==◌, if◌then◌else◌, Text, arith, Bool-cases, inl, inr,
}
use ops_ipapps.Relay.{same_text}
use ops_ipapps.Cli.Servers.{Row, Session, first_row, instead, change_row, without}
use ops_ipapps.Cli.ServerConfig.{udp_bcast_server_mine}
use ops_ipapps.Cli.ServerConfig.Totals.{same_text→eq, contains}

-- How often an address stands in a list.
abbrev pub copies : Text → List Text → ℕ
copies address [] = 0
copies address (x ∷ xs) =
    let rest = copies address xs in if same_text address x then suc rest else rest

abbrev is_some : Text → Option Text → Bool
is_some name none = false
is_some name (some other) = same_text other name

-- A row of an interface, a VRF and a UDP port.
abbrev pub is_at : Text → Text → ℕ → Row ℕ → Bool
is_at name vrf number row = is_some name row.port && (is_some vrf row.vrf && (row.extra == number))

abbrev pub share : Text → Text → ℕ → Text → Row ℕ → ℕ
share name vrf number address row =
    if is_at name vrf number row then copies address row.servers else 0

-- How often an address stands in the rows of an interface, a VRF and a UDP port.
abbrev pub entries : Text → Text → ℕ → Text → List (Row ℕ) → ℕ
entries name vrf number address [] = 0
entries name vrf number address (row ∷ rows) =
    share name vrf number address row + entries name vrf number address rows

abbrev pub share_of : Text → Text → ℕ → Text → Option (Row ℕ) → ℕ
share_of name vrf number address none = 0
share_of name vrf number address (some row) = share name vrf number address row

-- The place of a command's address, in the session's interface, for its UDP port.
abbrev pub same_place : Session → ℕ → Text → Text → ℕ → Bool
same_place t udp_port name vrf number =
    same_text t.index name && (same_text t.default_vrf vrf && (udp_port == number))

pub copies-append :
    (a y : Text) (xs : List Text)
    → copies a (xs ++ y ∷ []) ≡ copies a xs + (if same_text a y then 1 else 0)
copies-append a y [] = ground arith
copies-append a y (x ∷ xs) = ground (arith, copies-append a y xs)

pub copies-absent : (a : Text) (xs : List Text) → contains a xs ≡ false → copies a xs ≡ 0
copies-absent a [] c = refl
copies-absent a (x ∷ xs) c = ground (arith, copies-absent a xs)

pub copies-present : (a : Text) (xs : List Text) → contains a xs ≡ true → 1 ≤ copies a xs
copies-present a [] c = cc
copies-present a (x ∷ xs) c = ground (arith, copies-present a xs)

pub copies-without : (a : Text) (xs : List Text) → copies a (without a xs) ≡ 0
copies-without a [] = refl
copies-without a (x ∷ xs) = ground (arith, copies-without a xs)

pub copies-without_other :
    (b a : Text) (xs : List Text) → same_text b a ≡ false → copies b (without a xs) ≡ copies b xs
copies-without_other b a [] n = refl
copies-without_other b a (x ∷ xs) n = elim (Bool-cases (same_text a x)) [
  | inr e ↦ ground (arith, copies-without_other b a xs)
  | inl e ↦
      let apart : same_text b x ≡ false =
        subst (λ z. same_text b z ≡ false) (same_text→eq a x e) n in
      ground (arith, copies-without_other b a xs)
]

module _ (name vrf : Text) (number : ℕ) (address : Text) where
  entries-instead :
      (new : Option (Row ℕ)) (rows : List (Row ℕ))
      → entries name vrf number address (instead new rows)
        ≡ share_of name vrf number address new + entries name vrf number address rows
  entries-instead none rows = omega arith
  entries-instead (some row) rows = refl

  pub entries-change_row :
      (test : Row ℕ → Bool) (new : Option (Row ℕ)) (rows : List (Row ℕ)) (row : Row ℕ)
      → first_row test rows ≡ some row
      → entries name vrf number address (change_row test new rows)
          + share name vrf number address row
        ≡ entries name vrf number address rows + share_of name vrf number address new
  entries-change_row test new [] row e = cc
  entries-change_row test new (r ∷ rows) row e =
      ground (arith, entries-instead new rows, entries-change_row test new rows row)

  pub entries-append :
      (rows : List (Row ℕ)) (row : Row ℕ)
      → entries name vrf number address (rows ++ row ∷ [])
        ≡ entries name vrf number address rows + share name vrf number address row
  entries-append [] row = omega arith
  entries-append (r ∷ rows) row = omega (arith, entries-append rows row)

-- The row that a command finds is of its place and no other.
pub is_at-mine :
    (t : Session) (udp_port : ℕ) (row : Row ℕ)
    → is_at t.index t.default_vrf udp_port row ≡ udp_bcast_server_mine t udp_port row
is_at-mine t udp_port row = refl

is_some-own : (a b : Text) (o : Option Text) → is_some a o ≡ true → is_some b o ≡ same_text a b
is_some-own a b none h = cc
is_some-own a b (some x) h = ap (λ y. same_text y b) (same_text→eq x a h)

pub share-mine :
    (t : Session) (udp_port : ℕ) (row : Row ℕ) (name vrf : Text) (number : ℕ) (address : Text)
    → udp_bcast_server_mine t udp_port row ≡ true
    → share name vrf number address row
      ≡ (if same_place t udp_port name vrf number then copies address row.servers else 0)
share-mine t udp_port row name vrf number address mine =
    let port : is_some t.index row.port ≡ true = ground arith in
    let domain : is_some t.default_vrf row.vrf ≡ true = ground arith in
    let extra : row.extra ≡ udp_port = ground arith in
    rw (is_some-own t.index name row.port port, is_some-own t.default_vrf vrf row.vrf domain, extra)
      refl

-- Where the command finds no row, its place has no addresses.
pub entries-none :
    (t : Session) (udp_port : ℕ) (address : Text) (rows : List (Row ℕ))
    → first_row (udp_bcast_server_mine t udp_port) rows ≡ none
    → entries t.index t.default_vrf udp_port address rows ≡ 0
entries-none t udp_port address [] e = refl
entries-none t udp_port address (row ∷ rows) e =
    ground (arith, is_at-mine t udp_port row, entries-none t udp_port address rows)
