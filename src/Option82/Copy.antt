-- ===== src/Option82/Copy.antt =====
-- The end of the loop body: an option is moved down, and its length is read again afterwards.
use ops_ipapps.Base.{
  ℕ, ◌+◌, ◌-◌, ◌≤◌, ◌<◌, ◌≡◌, inl, inr, refl, ◌∙◌, ap, Bool, true, false, none, List, ◌∷◌, length,
  ltb, ◌==◌, ◌||◌, if◌then◌else◌, arith, if_elim,
}
use ops_ipapps.Packet.{Mem, memmove}
use ops_ipapps.Packet.Laws.{Holds, Holds-memmove, memmove_outside, memmove_inside}
use ops_ipapps.Option82.{Scan, continue, copy_option}

-- An option of the message: its tag and its value.
pub record Opt : Type 0 where
  pub tag : ℕ
  pub body : List ℕ

-- Its bytes.
abbrev pub encode : Opt → List ℕ
encode o = o.tag ∷ length o.body ∷ o.body

-- The memory after an option of `n` bytes was copied from `op` to `sp`.
abbrev pub moved : Mem → ℕ → ℕ → ℕ → Mem
moved m sp op n = if sp == op then m else memmove m sp op n

-- Whether the copy leaves the length byte of the source alone: there is nothing to move, or the
-- gap is as long as the option without its tag.
abbrev pub has_room : ℕ → Opt → Bool
has_room gap o = (gap == 0) || ltb (length o.body) gap

pub moved_below : (m : Mem) (sp op n a : ℕ) → a < sp → moved m sp op n a ≡ m a
moved_below m sp op n a h =
    if_elim (λ (x : Mem). x a ≡ m a) (sp == op) m (memmove m sp op n) (λ _. refl)
      (λ _. memmove_outside m sp op n a (inl h))

pub moved_above : (m : Mem) (sp op n a : ℕ) → sp ≤ op → op + n ≤ a → moved m sp op n a ≡ m a
moved_above m sp op n a le h =
    if_elim (λ (x : Mem). x a ≡ m a) (sp == op) m (memmove m sp op n) (λ _. refl)
      (λ _. memmove_outside m sp op n a (inr (omega arith)))

pub Holds-moved :
    (m : Mem) (sp op : ℕ) (vs : List ℕ) → Holds m op vs → Holds (moved m sp op (length vs)) sp vs
Holds-moved m sp op vs h =
    if_elim (λ (x : Mem). Holds x sp vs) (sp == op) m (memmove m sp op (length vs))
      (λ e. let same : sp ≡ op = ground arith in rw same h) (λ _. Holds-memmove m sp op vs h)

-- With room the copy leaves the length byte as it was.
moved-length :
    (m : Mem) (sp op : ℕ) (o : Opt)
    → sp ≤ op
    → Holds m op (encode o)
    → has_room (op - sp) o ≡ true
    → moved m sp op (length o.body + 2) (op + 1) ≡ length o.body
moved-length m sp op o le held room =
    if_elim (λ (x : Mem). x (op + 1) ≡ length o.body) (sp == op) m
      (memmove m sp op (length o.body + 2)) (λ _. held.1.0)
      (λ ne. memmove_outside m sp op (length o.body + 2) (op + 1) (inr (ground arith)) ∙ held.1.0)

-- The scan behind an option that was copied.
abbrev pub behind : Scan → Opt → Scan
behind s o = record s {
  mem = moved s.mem s.sp s.op (length o.body + 2);
  end_pad = none;
  sp = s.sp + (length o.body + 2);
  op = s.op + (length o.body + 2);
}

pub copy_option-room :
    (s : Scan) (o : Opt)
    → s.sp ≤ s.op
    → Holds s.mem s.op (encode o)
    → has_room (s.op - s.sp) o ≡ true
    → copy_option s ≡ continue (behind s o)
unfolding copy_option
copy_option-room s o le held room =
    let len : s.mem (s.op + 1) ≡ length o.body = held.1.0 in
    simp (len, moved-length s.mem s.sp s.op o le held room)

-- Without room the length is read from memory that the copy has overwritten: where the option is
-- moved by a gap of one byte at least and of its value's length at most, both pointers step on by
-- the byte at index `gap - 1` of the option's value, and not by the option's length.
pub copy_option_misreads :
    (s : Scan) (o : Opt)
    → s.sp < s.op
    → Holds s.mem s.op (encode o)
    → s.op - s.sp ≤ length o.body
    → let read = s.mem (s.op + 2 + (s.op - s.sp - 1)) in
      (s' : Scan) × (copy_option s ≡ continue s')
      × (s'.op ≡ s.op + (read + 2))
      × (s'.sp ≡ s.sp + (read + 2))
unfolding copy_option
copy_option_misreads s o lt held gap =
    let m' : Mem = moved s.mem s.sp s.op (s.mem (s.op + 1) + 2) in
    let differ : (s.sp == s.op) ≡ false = ground arith in
    let len : s.mem (s.op + 1) ≡ length o.body = held.1.0 in
    let read : m' (s.op + 1) ≡ s.mem (s.op + 2 + (s.op - s.sp - 1)) =
      rw differ
        (ground (arith, memmove_inside s.mem s.sp s.op (s.mem (s.op + 1) + 2) (s.op + 1))) in
    (
      record s {
        mem = m';
        end_pad = none;
        sp = s.sp + (m' (s.op + 1) + 2);
        op = s.op + (m' (s.op + 1) + 2);
      },
      refl,
      ap (λ (r : ℕ). s.op + (r + 2)) read,
      ap (λ (r : ℕ). s.sp + (r + 2)) read,
    )
