-- ===== src/Tables/Tally.antt =====
-- How often an interface leads to a server, whatever the order of its pointers.
use ops_ipapps.Base.{
  ℕ, ◌+◌, ◌<◌, ◌≤◌, ◌≡◌, refl, ◌∙◌, sym, ap, subst, Bool, true, false, ◌&&◌, Option, none, some,
  List, [], ◌∷◌, ◌==◌, if◌then◌else◌, arith, Bool-cases, inl, inr,
}
use ops_ipapps.Tables.{ServerEntry, IntfNode, Tables}
use ops_ipapps.Tables.Heap.{cell}
use ops_ipapps.Tables.Arrays.{is_at, count}
use ops_ipapps.Tables.Valid.{live}
use ops_ipapps.Tables.View.{key_of}

abbrev pub sum_over : (ℕ → ℕ) → List ℕ → ℕ
sum_over f [] = 0
sum_over f (p ∷ ps) = f p + sum_over f ps

abbrev pub has_key : Option ServerEntry → ℕ → ℕ → Bool
has_key none ip port = false
has_key (some s) ip port = (s.ip_address == ip) && (s.udp_port == port)

abbrev pub hit : Option ServerEntry → ℕ → ℕ → ℕ
hit o ip port = if has_key o ip port then 1 else 0

-- The pointers of a node, none without it.
abbrev pub live_of : Option IntfNode → List ℕ
live_of none = []
live_of (some n) = live n

-- How often the server is among those of an interface node.
unfoldable pub serves : Tables → ℕ → ℕ → ℕ → ℕ
serves t q ip port = sum_over (λ a. hit (cell a t.servers) ip port) (live_of (cell q t.nodes))

pub is_at_self : (p : ℕ) → is_at p p ≡ 1
is_at_self p = ground arith

pub sum_over-same :
    (f g : ℕ → ℕ) (ps : List ℕ)
    → ((a : ℕ) → 0 < count a ps → f a ≡ g a)
    → sum_over f ps ≡ sum_over g ps
sum_over-same f g [] h = refl
sum_over-same f g (p ∷ ps) h =
    omega
      (arith, h p (omega (arith, is_at_self p)), sum_over-same f g ps (λ a c. h a (omega arith)))

unfoldable without : ℕ → List ℕ → List ℕ
without p [] = []
without p (q ∷ qs) = if q == p then qs else q ∷ without p qs

sum_over-without :
    (f : ℕ → ℕ) (p : ℕ) (qs : List ℕ)
    → 0 < count p qs
    → sum_over f qs ≡ f p + sum_over f (without p qs)
unfolding without
sum_over-without f p [] h = absurd (omega arith)
sum_over-without f p (q ∷ qs) h = elim (Bool-cases (q == p)) [
  | inl e ↦ rw e (ap (λ x. f x + sum_over f qs) (ground arith))
  | inr e ↦ rw e (omega (arith, sum_over-without f p qs (ground arith)))
]

count-without :
    (a p : ℕ) (qs : List ℕ) → 0 < count p qs → count a (without p qs) + is_at a p ≡ count a qs
unfolding without
count-without a p [] h = absurd (omega arith)
count-without a p (q ∷ qs) h = ground (arith, count-without a p qs)

-- Lists with the same pointers, in any order, have the same sum.
pub sum_over-counts :
    (f : ℕ → ℕ) (ps qs : List ℕ)
    → ((a : ℕ) → count a ps ≡ count a qs)
    → sum_over f ps ≡ sum_over f qs
sum_over-counts f [] [] h = refl
sum_over-counts f [] (q ∷ qs) h = absurd (omega (arith, h q, is_at_self q))
sum_over-counts f (p ∷ ps) qs h =
    let there : 0 < count p qs = omega (arith, h p, is_at_self p) in
    omega (
      arith,
      sum_over-without f p qs there,
      sum_over-counts f ps (without p qs) (λ a. omega (arith, h a, count-without a p qs there)),
    )

-- A server that is found among the pointers.
pub sum_over-pos : (f : ℕ → ℕ) (a : ℕ) (ps : List ℕ) → 0 < count a ps → f a ≤ sum_over f ps
sum_over-pos f a [] h = absurd (omega arith)
sum_over-pos f a (p ∷ ps) h = elim (Bool-cases (p == a)) [
  | inl e ↦
      let same : p ≡ a = ground arith in subst (λ x. f x ≤ f p + sum_over f ps) same (omega arith)
  | inr e ↦ omega (arith, sum_over-pos f a ps (ground arith))
]

-- The address and the port of an entry decide which server it is.
pub hit-key :
    (o o' : Option ServerEntry) (ip port : ℕ)
    → key_of o ≡ key_of o'
    → hit o ip port ≡ hit o' ip port
hit-key o o' ip port e = by_key o ∙ ap hit_of e ∙ sym (by_key o')
  where
    hit_of : Option (ℕ × ℕ) → ℕ
    hit_of none = 0
    hit_of (some k) = if (k.0 == ip) && (k.1 == port) then 1 else 0

    by_key : (o : Option ServerEntry) → hit o ip port ≡ hit_of (key_of o)
    by_key none = refl
    by_key (some s) = refl

pub hit-has_key :
    (o : Option ServerEntry) (ip port i u : ℕ)
    → has_key o ip port ≡ true
    → hit o i u ≡ (if (i == ip) && (u == port) then 1 else 0)
hit-has_key none ip port i u e = absurd (cc)
hit-has_key (some s) ip port i u e = ground arith
