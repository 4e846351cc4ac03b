-- ===== src/Options/Scan.antt =====
-- dhcpScanOpt against the first option of the area, as a relation; when the scan ends, and when not.
use ops_ipapps.Base.{
  ℕ, zero, suc, ◌+◌, ◌-◌, ◌<◌, ◌≡◌, subst, sym, ◌≢◌, ◌↔◌, inl, inr, refl, Bool, true, false, Option,
  none, some, ltb, ◌==◌, arith, Bool-cases,
}
use ops_ipapps.Packet.{Mem, pad_tag, end_tag}
use ops_ipapps.Options.{address_space, next_option, after_overload, scan_opt}

-- Walking the area from an option's start, `r` is the first place with the tag: every place before
-- it holds another tag, no end mark, and is passed by one byte (a pad) or by its tag, its length byte
-- and as many bytes as that byte says.
pub data FirstOption (m : Mem) (tag optend r : ℕ) : ℕ → Type 0 where
  here : {opt : ℕ} → opt < optend → m opt ≡ tag → opt ≡ r → FirstOption m tag optend r opt
  pad :
      {opt : ℕ}
      → opt < optend
      → m opt ≢ tag
      → m opt ≡ pad_tag
      → FirstOption m tag optend r (opt + 1)
      → FirstOption m tag optend r opt
  skip :
      {opt : ℕ}
      → opt < optend
      → m opt ≢ tag
      → m opt ≢ end_tag
      → m opt ≢ pad_tag
      → FirstOption m tag optend r (opt + 2 + m (opt + 1))
      → FirstOption m tag optend r opt

module _ (signed : Bool) (m : Mem) (tag optend : ℕ) (track : Bool) where
  -- An option is passed by its length byte and the two bytes before its value, with no wrap.
  abbrev Plain : Type 0
  Plain = (a : ℕ) → a < optend → next_option signed m a ≡ a + 2 + m (a + 1)

  -- The four ways that a round of the loop goes.
  scan_opt_sound :
      (fuel opt overload r overload' : ℕ)
      → Plain
      → scan_opt fuel signed m tag track opt optend overload ≡ some (some r, overload')
      → FirstOption m tag optend r opt
  unfolding scan_opt
  scan_opt_sound zero opt overload r overload' plain e = cc
  scan_opt_sound (suc fuel) opt overload r overload' plain e = elim (Bool-cases (ltb opt optend)) [
    | inr out ↦ cc (rw out at e)
    | inl within ↦ elim (Bool-cases (m opt == tag)) [
      | inl hit ↦ here (ground arith) (ground arith) (ground arith)
      | inr miss ↦ elim (Bool-cases (m opt == end_tag)) [
        | inl stop ↦ absurd (ground arith)
        | inr on ↦ elim (Bool-cases (m opt == pad_tag)) [
          | inl padded ↦
              pad (ground arith) (ground arith) (ground arith)
                (scan_opt_sound fuel (opt + 1) overload r overload' plain (ground arith))
          | inr other ↦ skip (ground arith) (ground arith) (ground arith) (ground arith) (
              let l : opt < optend = ground arith in
              let on : FirstOption m tag optend r (next_option signed m opt) =
                scan_opt_sound fuel (next_option signed m opt) (after_overload track m opt overload)
                  r overload' plain (ground arith) in
              subst (FirstOption m tag optend r) (plain opt l) on)
        ]
      ]
    ]
  ]

  scan_opt_complete :
      (fuel opt overload r : ℕ)
      → Plain
      → optend - opt < fuel
      → FirstOption m tag optend r opt
      → (overload' : ℕ) × (scan_opt fuel signed m tag track opt optend overload
          ≡ some (some r, overload'))
  unfolding scan_opt
  scan_opt_complete zero opt overload r plain enough (here l e e') = absurd (omega arith)
  scan_opt_complete zero opt overload r plain enough (pad l n e f) = absurd (omega arith)
  scan_opt_complete zero opt overload r plain enough (skip l n n' n'' f) = absurd (omega arith)
  scan_opt_complete (suc fuel) opt overload r plain enough (here l e e') = (overload, ground arith)
  scan_opt_complete (suc fuel) opt overload r plain enough (pad l n e f) =
      let (o, h) = scan_opt_complete fuel (opt + 1) overload r plain (omega arith) f in
      (o, ground arith)
  scan_opt_complete (suc fuel) opt overload r plain enough (skip l n n' n'' f) =
      let (o, h) =
        scan_opt_complete fuel (next_option signed m opt) (after_overload track m opt overload) r
          plain (omega (arith, plain opt l))
          (subst (FirstOption m tag optend r) (sym (plain opt l)) f) in
      (o, ground arith)

  scan_opt_total :
      (fuel opt overload : ℕ)
      → Plain
      → optend - opt < fuel
      → (r : Option ℕ × ℕ) × (scan_opt fuel signed m tag track opt optend overload ≡ some r)
  unfolding scan_opt
  scan_opt_total zero opt overload plain enough = absurd (omega arith)
  scan_opt_total (suc fuel) opt overload plain enough = elim (Bool-cases (ltb opt optend)) [
    | inr out ↦ ((none, overload), rw out)
    | inl within ↦ elim (Bool-cases (m opt == tag)) [
      | inl hit ↦ ((some opt, overload), rw (within, hit))
      | inr miss ↦ elim (Bool-cases (m opt == end_tag)) [
        | inl stop ↦ ((none, overload), rw (within, miss, stop))
        | inr on ↦ elim (Bool-cases (m opt == pad_tag)) [
          | inl padded ↦
              let (r, e) = scan_opt_total fuel (opt + 1) overload plain (ground arith) in
              (r, rw (within, miss, on, padded) e)
          | inr other ↦
              let (r, e) =
                scan_opt_total fuel (next_option signed m opt) (after_overload track m opt overload)
                  plain (ground (arith, plain opt)) in
              (r, rw (within, miss, on, other) e)
        ]
      ]
    ]
  ]

unsigned-Plain :
    (m : Mem) (optend : ℕ)
    → ((a : ℕ) → m a < 256)
    → optend + 257 < address_space
    → Plain false m 0 optend false
unfolding next_option
unsigned-Plain m optend bytes room a h = ground (arith, bytes (a + 1))

-- Where `char` is unsigned, over bytes and with room behind the area, a scan with more rounds than
-- the area has bytes returns, and it returns a pointer `r` exactly when `r` is the first place of
-- the tag on the walk through the area.
pub scan_opt-FirstOption :
    (fuel : ℕ) (m : Mem) (tag : ℕ) (track : Bool) (opt optend overload : ℕ)
    → ((a : ℕ) → m a < 256)
    → optend + 257 < address_space
    → optend - opt < fuel
    → ((p : Option ℕ × ℕ) × (scan_opt fuel false m tag track opt optend overload ≡ some p))
      × ((r : ℕ)
          → ((overload' : ℕ) × (scan_opt fuel false m tag track opt optend overload
                ≡ some (some r, overload')))
            ↔ FirstOption m tag optend r opt)
scan_opt-FirstOption fuel m tag track opt optend overload bytes room enough =
    let plain = unsigned-Plain m optend bytes room in
    (
      scan_opt_total false m tag optend track fuel opt overload plain enough,
      λ r. (
        λ h. scan_opt_sound false m tag optend track fuel opt overload r h.0 plain h.1,
        scan_opt_complete false m tag optend track fuel opt overload r plain enough,
      ),
    )

-- Where `char` is signed, an option of another tag whose length byte is 254 stops the scan for good:
-- the pointer comes back to the same place, so no number of rounds is enough.
pub scan_opt_hangs :
    (fuel : ℕ) (m : Mem) (tag : ℕ) (track : Bool) (opt optend overload : ℕ)
    → opt < optend
    → opt < address_space
    → m opt ≢ tag
    → m opt ≢ end_tag
    → m opt ≢ pad_tag
    → m (opt + 1) ≡ 254
    → scan_opt fuel true m tag track opt optend overload ≡ none
unfolding scan_opt
scan_opt_hangs zero m tag track opt optend overload l a n e p s = refl
scan_opt_hangs (suc fuel) m tag track opt optend overload l a n e p s =
    let same : next_option true m opt ≡ opt = unfold next_option in ground arith in
    ground (
      arith,
      same,
      scan_opt_hangs fuel m tag track opt optend (after_overload track m opt overload) l a n e p s,
    )
