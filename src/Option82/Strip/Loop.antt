-- ===== src/Option82/Strip/Loop.antt =====
-- The loop on a request under the policy REPLACE: the relay agent options behind the message type
-- are taken out, and all other options stay, in their order.
use ops_ipapps.Base.{
  ℕ, zero, suc, ◌+◌, ◌-◌, ◌≤◌, ◌<◌, ◌≡◌, inl, inr, refl, ◌∙◌, sym, ap, subst, Bool, true, false,
  not, none, List, [], ◌∷◌, length, length-append, ltb, ◌==◌, ◌&&◌, if◌then◌else◌, arith,
  Bool-cases, if_elim,
}
use ops_ipapps.Packet.{
  Mem, store8, load32, dhcp_giaddr, bootrequest, pad_tag, dhcp_maxmsgsize, dhcp_agent_options,
  end_tag,
}
use ops_ipapps.Packet.Laws.{
  Holds, Holds-same, Holds-split, Holds-append, load32-same, store8_self, store8_other,
}
use ops_ipapps.Global.{replace}
use ops_ipapps.Option82.{
  Call, Scan, continue, finished, copy_option, skip_option, by_policy, agent_option, round,
  after_round, options_loop,
}
use ops_ipapps.Option82.Copy.{
  Opt, encode, moved, moved_below, moved_above, Holds-moved, copy_option-room,
}
use ops_ipapps.Option82.Strip.{
  wire, after_tag, is_removed, strip, plain, roomy, seen_in, plain_head, plain_tail, roomy_removed,
  roomy_kept, may_strip, may_strip_removed, may_strip_kept, seen_behind,
}

module _ (c : Call) (dhcp max : ℕ) (zero_giaddr : Bool) (replaces : c.config.policy ≡ replace) where
  -- What the rounds need of the header, and of the pointers.
  pub record Ready (s : Scan) : Type 0 where
    pub request : s.mem dhcp ≡ bootrequest
    pub giaddr : (load32 s.mem (dhcp + dhcp_giaddr) == 0) ≡ zero_giaddr
    pub above : dhcp + 28 ≤ s.sp
    pub order : s.sp ≤ s.op
    pub no_pad : s.end_pad ≡ none

  -- A round that only copies the option.
  round-copies :
      (s : Scan) (o : Opt)
      → s.mem s.op ≡ o.tag
      → (not (o.tag == pad_tag) && not (o.tag == end_tag) && not (o.tag == dhcp_maxmsgsize)) ≡ true
      → is_removed s.is_dhcp o ≡ false
      → round c dhcp max s ≡ copy_option (record s { is_dhcp = after_tag s.is_dhcp o })
  unfolding round agent_option
  round-copies s o t p k = simp t (ground arith)

  round-removed :
      (s : Scan) (o : Opt)
      → Ready s
      → Holds s.mem s.op (encode o)
      → is_removed s.is_dhcp o ≡ true
      → zero_giaddr ≡ false
      → round c dhcp max s ≡ continue (record s { end_pad = none; op = s.op + (length o.body + 2) })
  unfolding round agent_option by_policy skip_option
  round-removed s o r held k z =
      let tag : s.mem s.op ≡ dhcp_agent_options = ground arith in
      let seen : s.is_dhcp ≡ true = ground arith in
      let len : s.mem (s.op + 1) ≡ length o.body = held.1.0 in
      simp (tag, seen, r.giaddr, z, r.request, replaces, len)

  round-end :
      (s : Scan)
      → s.mem s.op ≡ end_tag
      → round c dhcp max s
        ≡ continue (record s {
          mem = if s.sp == s.op then s.mem else store8 s.mem s.sp end_tag;
          sp = s.sp + 1;
          op = max;
        })
  unfolding round
  round-end s e = simp e

  -- The scan `s'` behind the options: what stays stands from `s.sp` on, and the rest is as before.
  pub record Stripped (s : Scan) (os : List Opt) (s' : Scan) : Type 0 where
    pub holds : Holds s'.mem s.sp (wire (strip s.is_dhcp os))
    pub sp : s'.sp ≡ s.sp + length (wire (strip s.is_dhcp os))
    pub below : (a : ℕ) → a < s.sp → s'.mem a ≡ s.mem a
    pub same_info : s'.info ≡ s.info
    pub same_size : s'.max_msg_size ≡ s.max_msg_size
    pub no_pad : s'.end_pad ≡ none
    pub is_dhcp : s'.is_dhcp ≡ seen_in s.is_dhcp os

  options_loop_step :
      (fuel : ℕ) (s s' : Scan)
      → s.op < max
      → round c dhcp max s ≡ continue s'
      → options_loop c (suc fuel) dhcp max s ≡ options_loop c fuel dhcp max s'
  unfolding options_loop after_round
  options_loop_step fuel s s' lt e = let t : ltb s.op max ≡ true = ground arith in simp (t, e)

  options_loop_done :
      (fuel : ℕ) (s : Scan) → max ≤ s.op → options_loop c (suc fuel) dhcp max s ≡ finished s
  unfolding options_loop
  options_loop_done fuel s h = let t : ltb s.op max ≡ false = ground arith in simp t

  -- The statement of the loop lemma, for one fuel and one scan.
  abbrev Strips : ℕ → Scan → List Opt → Type 0
  Strips fuel s os = (s' : Scan) × (options_loop c fuel dhcp max s ≡ finished s') × Stripped s os s'

  strip_end :
      (fuel : ℕ) (s : Scan)
      → Ready s
      → s.op < max
      → s.mem s.op ≡ end_tag
      → Strips (suc (suc fuel)) s []
  unfolding strip
  strip_end fuel s r lt e =
      let m' : Mem = if s.sp == s.op then s.mem else store8 s.mem s.sp end_tag in
      let s' : Scan = record s { mem = m'; sp = s.sp + 1; op = max } in
      (
        s',
        options_loop_step (suc fuel) s s' lt (round-end s e)
            ∙ options_loop_done fuel s' (omega arith),
        record {
          holds = (
            if_elim (λ (x : Mem). x s.sp ≡ end_tag) (s.sp == s.op) s.mem _
                (λ t. let same : s.sp ≡ s.op = ground arith in ap s.mem same ∙ e)
                (λ _. store8_self s.mem s.sp end_tag),
            tt,
          );
          sp = refl;
          below = λ a h.
              if_elim (λ (x : Mem). x a ≡ s.mem a) (s.sp == s.op) s.mem _ (λ _. refl)
                (λ _. store8_other s.mem s.sp end_tag a (λ q. omega arith));
          same_info = refl;
          same_size = refl;
          no_pad = r.no_pad;
          is_dhcp = refl;
        },
      )

  Ready-kept : (s : Scan) (o : Opt) → Ready s → Ready (seen_behind s o)
  Ready-kept s o r =
      let same = moved_below s.mem s.sp s.op (length o.body + 2) in
      let above = r.above in
      record {
        request = same dhcp (omega arith) ∙ r.request;
        giaddr =
            rw
              (load32-same s.mem (moved s.mem s.sp s.op (length o.body + 2)) (dhcp + dhcp_giaddr)
                (λ b l u. same b (omega arith)))
              r.giaddr;
        above = omega arith;
        order = let order = r.order in omega arith;
        no_pad = refl;
      }

  -- What the options behind a kept one come to, seen from before it.
  Stripped-kept :
      (s s' : Scan) (o : Opt) (os : List Opt)
      → Holds s.mem s.op (encode o)
      → is_removed s.is_dhcp o ≡ false
      → Stripped (seen_behind s o) os s'
      → Stripped s (o ∷ os) s'
  unfolding strip
  Stripped-kept s s' o os held k t =
      let rest = wire (strip (after_tag s.is_dhcp o) os) in
      let n : suc (suc (length o.body)) ≡ length o.body + 2 = omega arith in
      let stay : strip s.is_dhcp (o ∷ os) ≡ o ∷ strip (after_tag s.is_dhcp o) os = simp k in
      let there : Holds (moved s.mem s.sp s.op (length o.body + 2)) s.sp (encode o) =
        subst (λ l. Holds (moved s.mem s.sp s.op l) s.sp (encode o)) n
          (Holds-moved s.mem s.sp s.op (encode o) held) in
      let copied : Holds s'.mem s.sp (encode o) =
        Holds-same (moved s.mem s.sp s.op (length o.body + 2)) s'.mem s.sp (encode o)
          (λ b l u. t.below b (omega arith)) there in
      let behind_it : Holds s'.mem (s.sp + length (encode o)) rest =
        subst (λ l. Holds s'.mem (s.sp + l) rest) (sym n) t.holds in
      record {
        holds = rw (ap wire stay) (Holds-append s'.mem s.sp (encode o) rest copied behind_it);
        sp = rw (ap wire stay) (omega (arith, t.sp, length-append {0} (encode o) rest));
        below =
            λ a h. t.below a (omega arith) ∙ moved_below s.mem s.sp s.op (length o.body + 2) a h;
        same_info = t.same_info;
        same_size = t.same_size;
        no_pad = t.no_pad;
        is_dhcp = t.is_dhcp;
      }

  abbrev skipped : Scan → Opt → Scan
  skipped s o = record s { end_pad = none; op = s.op + (length o.body + 2) }

  Ready-skipped : (s : Scan) (o : Opt) → Ready s → Ready (skipped s o)
  Ready-skipped s o r = record {
    request = r.request;
    giaddr = r.giaddr;
    above = r.above;
    order = let order = r.order in omega arith;
    no_pad = refl;
  }

  Stripped-removed :
      (s s' : Scan) (o : Opt) (os : List Opt)
      → is_removed s.is_dhcp o ≡ true
      → Stripped (skipped s o) os s'
      → Stripped s (o ∷ os) s'
  unfolding strip
  Stripped-removed s s' o os k t =
      let gone : strip s.is_dhcp (o ∷ os) ≡ strip s.is_dhcp os = simp k in
      let seen : after_tag s.is_dhcp o ≡ s.is_dhcp = ground arith in
      record {
        holds = rw (ap wire gone) t.holds;
        sp = rw (ap wire gone) t.sp;
        below = t.below;
        same_info = t.same_info;
        same_size = t.same_size;
        no_pad = t.no_pad;
        is_dhcp = rw seen t.is_dhcp;
      }

  pub strip_loop :
      (fuel : ℕ) (s : Scan) (os : List Opt)
      → Ready s
      → s.op + length (wire os) ≤ max
      → Holds s.mem s.op (wire os)
      → plain os ≡ true
      → roomy s.is_dhcp (s.op - s.sp) os ≡ true
      → may_strip zero_giaddr s.is_dhcp os ≡ true
      → max - s.op < fuel
      → Strips fuel s os
  strip_loop zero s os r fits held p room may enough = absurd (omega arith)
  strip_loop (suc zero) s [] r fits held p room may enough = absurd (omega arith)
  strip_loop (suc (suc fuel)) s [] r fits held p room may enough =
      strip_end fuel s r (omega arith) held.0
  strip_loop (suc fuel) s (o ∷ os) r fits held p room may enough =
      let (first, others) = Holds-split s.mem s.op (encode o) (wire os) held in
      let bytes = length-append {0} (encode o) (wire os) in
      let behind_it : Holds s.mem (s.op + (length o.body + 2)) (wire os) =
        subst (λ l. Holds s.mem (s.op + l) (wire os)) two_more others in
      elim (Bool-cases (is_removed s.is_dhcp o)) [
        | inl k ↦
            let (z, may') = may_strip_removed zero_giaddr s.is_dhcp o os k may in
            let (s', e, t) =
              strip_loop fuel (skipped s o) os (Ready-skipped s o r) (omega arith) behind_it
                (plain_tail o os p) (roomy_removed s o os r.order k room) may' (omega arith) in
            (
              s',
              options_loop_step fuel s (skipped s o) (omega arith) (round-removed s o r first k z)
                  ∙ e,
              Stripped-removed s s' o os k t,
            )
        | inr k ↦
            let (space, room') = roomy_kept s o os k room in
            let above = moved_above s.mem s.sp s.op (length o.body + 2) in
            let (s', e, t) =
              strip_loop fuel (seen_behind s o) os (Ready-kept s o r) (omega arith)
                (Holds-same s.mem (moved s.mem s.sp s.op (length o.body + 2))
                  (s.op + (length o.body + 2)) (wire os) (λ b l u. above b r.order l) behind_it)
                (plain_tail o os p) room' (may_strip_kept zero_giaddr s.is_dhcp o os k may)
                (omega arith) in
            (
              s',
              options_loop_step fuel s (seen_behind s o) (omega arith) (
                    round-copies s o first.0 (plain_head o os p) k
                    ∙ copy_option-room (record s { is_dhcp = after_tag s.is_dhcp o }) o r.order
                        first space)
                  ∙ e,
              Stripped-kept s s' o os first k t,
            )
      ]
    where
      two_more : suc (suc (length o.body)) ≡ length o.body + 2
      two_more = omega arith
