-- ===== src/Tables/Compact.antt =====
-- udpfwd_push_deleted_server_ref_to_end keeps the pointers that are not deleted.
use ops_ipapps.Base.{
  ℕ, zero, suc, ◌+◌, ◌<◌, ◌≤◌, ◌≡◌, refl, ◌∙◌, ap, Bool-cases, inl, inr, true, false, ◌&&◌, some,
  List, [], ◌∷◌, ◌==◌, length, set, get_elem?, length-set, get_elem?-set_self, get_elem?-set_ne,
  arith,
}
use ops_ipapps.Tables.{take, push_deleted, compact, starts_null}
use ops_ipapps.Tables.Arrays.{
  is_at, count, in_range, take-set_behind, count-take-set, count-take_suc,
}

-- The array behind the deletion of `p`: as long, with the other pointers, and NULL at its start when
-- none are left.
pub record Compacted (ps ps' : List ℕ) (n p : ℕ) : Type 0 where
  pub same_length : length ps' ≡ length ps
  pub counts : (a : ℕ) → count a (take n ps') + is_at a p ≡ count a (take (n + 1) ps)
  pub null_start : n ≡ 0 → starts_null (some ps') ≡ true

pub get_elem?-lt : (i p : ℕ) (ps : List ℕ) → get_elem? ps i ≡ some p → i < length ps
get_elem?-lt i p [] e = cc
get_elem?-lt zero p (q ∷ ps) e = omega arith
get_elem?-lt (suc i) p (q ∷ ps) e = omega (arith, get_elem?-lt i p ps e)

module _ (ps : List ℕ) (n i p : ℕ) (in_array : n < length ps) (before : i ≤ n)
    (at : get_elem? ps i ≡ some p) where
  -- The write of the deletion, and the two of the move.
  abbrev nulled : List ℕ
  nulled = set ps i 0

  abbrev swept : List ℕ
  swept = set (set nulled i 0) n 0

  length-swept : length swept ≡ length ps
  length-swept = length-set (set nulled i 0) n 0 ∙ length-set nulled i 0 ∙ length-set ps i 0

  last_null : i ≡ n → get_elem? nulled n ≡ some 0
  last_null e = ground (arith, get_elem?-set_self ps i 0)

  move_last :
      (last : ℕ)
      → i ≡ n
      → (a : ℕ) → count a (take n (set swept i last)) + is_at a p ≡ count a (take (n + 1) ps)
  move_last last e a = omega (
    arith,
    ap (count a) (take-set_behind n i last swept (omega arith)),
    ap (count a) (take-set_behind n n 0 (set nulled i 0) (omega arith)),
    ap (count a) (take-set_behind n i 0 nulled (omega arith)),
    ap (count a) (take-set_behind n i 0 ps (omega arith)),
    count-take_suc a n p ps (ground arith),
  )

  swept_null : i < n → get_elem? swept i ≡ some 0
  swept_null lt =
      get_elem?-set_ne (set nulled i 0) n i 0 (λ e. omega arith)
      ∙ get_elem?-set_self nulled i 0 (omega (arith, length-set {0} ps i 0))

  move_inner :
      (last : ℕ)
      → i < n
      → get_elem? ps n ≡ some last
      → (a : ℕ) → count a (take n (set swept i last)) + is_at a p ≡ count a (take (n + 1) ps)
  move_inner last lt e a = omega (
    arith,
    count-take-set a n i last 0 swept lt (swept_null lt),
    ap (count a) (take-set_behind n n 0 (set nulled i 0) (omega arith)),
    count-take-set a n i 0 0 nulled lt (get_elem?-set_self ps i 0 (omega arith)),
    count-take-set a n i 0 p ps lt at,
    count-take_suc a n last ps e,
  )

  last_kept : i < n → get_elem? nulled n ≡ get_elem? ps n
  last_kept lt = get_elem?-set_ne ps i n 0 (λ e. omega arith)

  push_deleted_lem :
      (last : ℕ)
      → (i == 0) && (n == 0) ≡ false
      → get_elem? nulled n ≡ some last
      → compact n i (some nulled) ≡ some (some (set swept i last))
  unfolding compact push_deleted
  push_deleted_lem last other e = rw (other, e, push_deleted)

  moved :
      (last : ℕ)
      → (i == 0) && (n == 0) ≡ false
      → get_elem? nulled n ≡ some last
      → ((a : ℕ) → count a (take n (set swept i last)) + is_at a p ≡ count a (take (n + 1) ps))
      → (ps' : List ℕ) × (compact n i (some nulled) ≡ some (some ps')) × Compacted ps ps' n p
  moved last other e counts = (
    set swept i last,
    push_deleted_lem last other e,
    record {
      same_length = length-set swept i last ∙ length-swept;
      counts = counts;
      null_start = λ z. absurd (let none_left = other in ground arith);
    },
  )

  starts_null-set : i ≡ 0 → starts_null (some nulled) ≡ true
  starts_null-set z = rw z (first_null ps (omega arith))
    where
      first_null : (qs : List ℕ) → 0 < length qs → starts_null (some (set qs 0 0)) ≡ true
      first_null [] h = absurd (omega arith)
      first_null (q ∷ qs) h = refl

  only_one :
      (i == 0) && (n == 0) ≡ true
      → (ps' : List ℕ) × (compact n i (some nulled) ≡ some (some ps')) × Compacted ps ps' n p
  unfolding compact
  only_one only = (
    nulled,
    rw only,
    record {
      same_length = length-set ps i 0;
      counts = λ a.
          let i_zero : i ≡ 0 = ground arith in
          let n_zero : n ≡ 0 = ground arith in
          omega (
            arith,
            ap (count a) (take-set_behind n i 0 ps (omega arith)),
            count-take_suc a n p ps (ground arith),
          );
      null_start = λ z. starts_null-set (ground arith);
    },
  )

  pub compact_lem :
      (ps' : List ℕ) × (compact n i (some nulled) ≡ some (some ps')) × Compacted ps ps' n p
  compact_lem = elim (Bool-cases ((i == 0) && (n == 0))) [
    | inl only ↦ only_one only
    | inr other ↦ elim (Bool-cases (i == n)) [
      | inl same ↦ moved 0 other (last_null (ground arith)) (move_last 0 (ground arith))
      | inr apart ↦
          let (last, e) = in_range n ps in_array in
          let lt : i < n = ground arith in
          moved last other (last_kept lt ∙ e) (move_inner last lt e)
    ]
  ]
