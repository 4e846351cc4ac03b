-- ===== src/Option82/Strip.antt =====
-- The options that stay of a request under the policy REPLACE, and the conditions under which the
-- loop can move them.
pub mod Loop
use ops_ipapps.Base.{
  ℕ, zero, suc, ◌+◌, ◌-◌, ◌≤◌, ◌<◌, ◌≡◌, ◌≢◌, ◌⊎◌, inl, inr, refl, ◌∙◌, sym, ap, subst, Bool, true,
  false, not, Option, none, some, List, [], ◌∷◌, ◌++◌, length, length-append, ltb, leb, ◌==◌, ◌||◌,
  ◌&&◌, if◌then◌else◌, arith, Bool-cases, if_elim,
}
use ops_ipapps.Packet.{
  Mem, store8, load32, dhcp_giaddr, bootrequest, bootreply, pad_tag, dhcp_msgtype, dhcp_maxmsgsize,
  dhcp_agent_options, end_tag,
}
use ops_ipapps.Packet.Laws.{
  Holds, Holds-same, Holds-split, Holds-append, load32-same, store8_self, store8_other,
}
use ops_ipapps.Global.{Option82Policy, replace}
use ops_ipapps.Option82.{
  Call, Scan, Next, continue, Outcome, finished, copy_option, skip_option, by_policy, agent_option,
  round, after_round, options_loop,
}
use ops_ipapps.Option82.Copy.{
  Opt, encode, moved, moved_below, moved_above, Holds-moved, has_room, behind, copy_option-room,
}

-- The bytes of an options area, up to the end mark.
abbrev pub wire : List Opt → List ℕ
wire [] = end_tag ∷ []
wire (o ∷ os) = encode o ++ wire os

-- Whether a message type was seen, behind the option.
abbrev pub after_tag : Bool → Opt → Bool
after_tag seen o = if o.tag == dhcp_msgtype then true else seen

abbrev pub is_removed : Bool → Opt → Bool
is_removed seen o = if o.tag == dhcp_agent_options then seen else false

-- The options that stay, once a message type was `seen`.
unfoldable pub strip : Bool → List Opt → List Opt
strip seen [] = []
strip seen (o ∷ os) =
    let removed = strip seen os in
    let kept = o ∷ strip (after_tag seen o) os in if is_removed seen o then removed else kept

-- Options without a meaning of their own to the loop, but message types and agent options: no pad,
-- no end mark, no maximum message size.
unfoldable pub plain : List Opt → Bool
plain [] = true
plain (o ∷ os) =
    not (o.tag == pad_tag) && not (o.tag == end_tag) && not (o.tag == dhcp_maxmsgsize) && plain os

-- Every option that stays has room to be moved by the bytes taken out before it.
unfoldable pub roomy : Bool → ℕ → List Opt → Bool
roomy seen gap [] = true
roomy seen gap (o ∷ os) =
    let removed = roomy seen (gap + (length o.body + 2)) os in
    let kept = has_room gap o && roomy (after_tag seen o) gap os in
    if is_removed seen o then removed else kept

-- Whether a message type is among the options, or was seen before.
abbrev pub seen_in : Bool → List Opt → Bool
seen_in seen [] = seen
seen_in seen (o ∷ os) = seen_in (after_tag seen o) os

pub plain_head :
    (o : Opt) (os : List Opt)
    → plain (o ∷ os) ≡ true
    → (not (o.tag == pad_tag) && not (o.tag == end_tag) && not (o.tag == dhcp_maxmsgsize)) ≡ true
unfolding plain
plain_head o os p = ground arith

pub plain_tail : (o : Opt) (os : List Opt) → plain (o ∷ os) ≡ true → plain os ≡ true
unfolding plain
plain_tail o os p = ground arith

pub roomy_removed :
    (s : Scan) (o : Opt) (os : List Opt)
    → s.sp ≤ s.op
    → is_removed s.is_dhcp o ≡ true
    → roomy s.is_dhcp (s.op - s.sp) (o ∷ os) ≡ true
    → roomy s.is_dhcp (s.op + (length o.body + 2) - s.sp) os ≡ true
unfolding roomy
roomy_removed s o os le k room =
    let gap : s.op + (length o.body + 2) - s.sp ≡ s.op - s.sp + (length o.body + 2) = omega arith in
    rw gap (simp k at room)

pub roomy_kept :
    (s : Scan) (o : Opt) (os : List Opt)
    → is_removed s.is_dhcp o ≡ false
    → roomy s.is_dhcp (s.op - s.sp) (o ∷ os) ≡ true
    → (has_room (s.op - s.sp) o ≡ true)
      × (roomy
            (after_tag s.is_dhcp o)
            (s.op + (length o.body + 2) - (s.sp + (length o.body + 2)))
            os
          ≡ true)
unfolding roomy
roomy_kept s o os k room =
    let gap : s.op + (length o.body + 2) - (s.sp + (length o.body + 2)) ≡ s.op - s.sp =
      omega arith in
    rw gap (ground arith)

-- No option is taken out of a message whose giaddr is zero: the relay drops such a message.
unfoldable pub may_strip : Bool → Bool → List Opt → Bool
may_strip zero_giaddr seen [] = true
may_strip zero_giaddr seen (o ∷ os) =
    let removed = not zero_giaddr && may_strip zero_giaddr seen os in
    let kept = may_strip zero_giaddr (after_tag seen o) os in
    if is_removed seen o then removed else kept

pub may_strip_removed :
    (zero_giaddr seen : Bool) (o : Opt) (os : List Opt)
    → is_removed seen o ≡ true
    → may_strip zero_giaddr seen (o ∷ os) ≡ true
    → (zero_giaddr ≡ false) × (may_strip zero_giaddr seen os ≡ true)
unfolding may_strip
may_strip_removed z seen o os k h = ground arith

pub may_strip_kept :
    (zero_giaddr seen : Bool) (o : Opt) (os : List Opt)
    → is_removed seen o ≡ false
    → may_strip zero_giaddr seen (o ∷ os) ≡ true
    → may_strip zero_giaddr (after_tag seen o) os ≡ true
unfolding may_strip
may_strip_kept z seen o os k h = simp k at h

abbrev pub seen_behind : Scan → Opt → Scan
seen_behind s o = behind (record s { is_dhcp = after_tag s.is_dhcp o }) o
