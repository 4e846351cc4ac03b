-- ===== src/Option82/Untouched.antt =====
-- Until a message type is seen the loop changes nothing: sp and option_parser_ptr are one pointer.
use ops_ipapps.Base.{
  ℕ, zero, suc, ◌+◌, ◌*◌, ◌≤◌, ◌<◌, ◌≡◌, ◌≢◌, ◌⊎◌, inl, inr, refl, true, not, Option, none, some,
  ltb, ◌==◌, if◌then◌else◌, arith, if_elim,
}
use ops_ipapps.Packet.{
  Mem, store8, load32, dhcp_giaddr, bootrequest, bootreply, pad_tag, dhcp_msgtype, dhcp_maxmsgsize,
  dhcp_agent_options, end_tag,
}
use ops_ipapps.Global.{Option82Policy, keep, drop, replace, invalid}
use ops_ipapps.Agent.{Validation, option_82_ok, option_82_mismatch, invalid_option_82, Option82Info}
use ops_ipapps.Option82.{
  Call, Scan, Next, continue, return, stuck, Outcome, finished, returned, out_of_fuel, copy_option,
  max_size_option, skip_option, after_validation, by_policy, agent_option, round, after_round,
  options_loop, noop,
}

module _ (m₀ : Mem) (info₀ : Option82Info) (max : ℕ) where
  -- Nothing is changed yet.
  pub record Same (s : Scan) : Type 0 where
    pub mem : (a : ℕ) → s.mem a ≡ m₀ a
    pub info : s.info ≡ info₀
    pub pointers : (s.sp ≡ s.op) ⊎ (max ≤ s.op)

  abbrev pub Inv : Scan → Type 0
  Inv s = (s.is_dhcp ≡ true) ⊎ Same s

  abbrev Kept : Next → Type 0
  Kept (continue s) = Inv s
  Kept (return r s) = r ≢ noop
  Kept stuck = Unit {0}

  copy_option-Kept : (s : Scan) → s.op < max → Inv s → Kept (copy_option s)
  unfolding copy_option
  copy_option-Kept s h (inl dhcp) = inl dhcp
  copy_option-Kept s h (inr same) =
      let e : (s.sp == s.op) ≡ true = ground (arith, same.pointers) in
      inr (record {
        mem = rw e same.mem;
        info = same.info;
        pointers = inl (ground (arith, same.pointers));
      })

  -- The scan with the size that a maximum-size option names.
  abbrev sized : Scan → Scan
  sized s = record s {
    max_msg_size =
        if ltb (s.mem (s.op + 2) * 256 + s.mem (s.op + 3)) 576
        then 0
        else s.mem (s.op + 2) * 256 + s.mem (s.op + 3);
  }

  abbrev unpadded : Scan → Scan
  unpadded s = record s { end_pad = none }

  Inv-sized : (s : Scan) → Inv s → Inv (sized s)
  Inv-sized s (inl d) = inl d
  Inv-sized s (inr same) =
      inr (record { mem = same.mem; info = same.info; pointers = same.pointers })

  -- A pad, and the end mark, are written where they stand.
  pad-Inv :
      (s : Scan)
      → s.op < max
      → Inv s
      → Inv (record s {
        end_pad = some s.sp;
        mem = store8 s.mem s.sp (s.mem s.op);
        sp = s.sp + 1;
        op = s.op + 1;
      })
  unfolding store8
  pad-Inv s h (inl d) = inl d
  pad-Inv s h (inr same) =
      let e : s.sp ≡ s.op = ground (arith, same.pointers) in
      inr (record {
        mem = λ a. ground (arith, same.mem a, same.mem s.op);
        info = same.info;
        pointers = inl (omega arith);
      })

  end-Inv :
      (s : Scan)
      → s.op < max
      → Inv s
      → Inv (record s {
        mem = if s.sp == s.op then s.mem else store8 s.mem s.sp (s.mem s.op);
        sp = s.sp + 1;
        op = max;
      })
  end-Inv s h (inl d) = inl d
  end-Inv s h (inr same) =
      let e : (s.sp == s.op) ≡ true = ground (arith, same.pointers) in
      inr (record { mem = rw e same.mem; info = same.info; pointers = inr (omega arith) })

  max_size_option-Kept : (dhcp : ℕ) (s : Scan) → s.op < max → Inv s → Kept (max_size_option dhcp s)
  unfolding max_size_option
  max_size_option-Kept dhcp s h i =
      if_elim Kept (s.mem dhcp == bootrequest) _ _
        (λ _.
          if_elim Kept (s.mem (s.op + 1) == 2) _ _
            (λ _. copy_option-Kept (sized s) h (Inv-sized s i)) (λ _ e. cc))
        (λ _. copy_option-Kept s h i)

  after_validation-Kept :
      (s : Scan) (r : Option (Validation × Option82Info))
      → s.is_dhcp ≡ true
      → Kept (after_validation s r)
  unfolding after_validation skip_option
  after_validation-Kept s none d = tt
  after_validation-Kept s (some (invalid_option_82, info)) d = λ e. cc
  after_validation-Kept s (some (option_82_mismatch, info)) d = inl d
  after_validation-Kept s (some (option_82_ok, info)) d = inl d

  by_policy-Kept : (p : Option82Policy) (s : Scan) → s.is_dhcp ≡ true → Kept (by_policy p s)
  unfolding by_policy skip_option
  by_policy-Kept keep s d = λ e. cc
  by_policy-Kept drop s d = λ e. cc
  by_policy-Kept replace s d = inl d
  by_policy-Kept invalid s d = inl d

  agent_option-Kept :
      (c : Call) (dhcp : ℕ) (s : Scan) → s.op < max → Inv s → Kept (agent_option c dhcp s)
  unfolding agent_option
  agent_option-Kept c dhcp s h i =
      if_elim Kept (not s.is_dhcp) _ _ (λ _. copy_option-Kept s h i)
        λ n.
          if_elim Kept (load32 s.mem (dhcp + dhcp_giaddr) == 0) _ _ (λ _ e. cc)
            λ _.
              let d : s.is_dhcp ≡ true = ground arith in
              if_elim Kept (s.mem dhcp == bootreply) _ _
                (λ _. after_validation-Kept (unpadded s) _ d)
                λ _.
                  if_elim Kept (s.mem dhcp == bootrequest) _ _
                    (λ _. by_policy-Kept c.config.policy (unpadded s) d)
                    (λ _. copy_option-Kept (unpadded s) h (inl d))

  round-Kept : (c : Call) (dhcp : ℕ) (s : Scan) → s.op < max → Inv s → Kept (round c dhcp max s)
  unfolding round
  round-Kept c dhcp s h i =
      if_elim Kept (s.mem s.op == pad_tag) _ _ (λ _. pad-Inv s h i)
        λ _.
          if_elim Kept (s.mem s.op == dhcp_msgtype) _ _
            (λ _. copy_option-Kept (record s { is_dhcp = true }) h (inl refl))
            λ _.
              if_elim Kept (s.mem s.op == dhcp_maxmsgsize) _ _
                (λ _. max_size_option-Kept dhcp s h i)
                λ _.
                  if_elim Kept (s.mem s.op == end_tag) _ _ (λ _. end-Inv s h i)
                    λ _.
                      if_elim Kept (s.mem s.op == dhcp_agent_options) _ _
                        (λ _. agent_option-Kept c dhcp s h i) (λ _. copy_option-Kept s h i)

  -- How the loop leaves the message.
  abbrev pub Left : Outcome → Type 0
  Left (finished s) = Inv s
  Left (returned r s) = r ≢ noop
  Left out_of_fuel = Unit {0}

  after_round-Left :
      (c : Call) (n : Next) (k : Scan → Outcome)
      → Kept n
      → ((s : Scan) → Inv s → Left (k s))
      → Left (after_round c n k)
  unfolding after_round
  after_round-Left c (continue s) k i more = more s i
  after_round-Left c (return r s) k i more = i
  after_round-Left c stuck k i more = tt

  pub options_loop-Left :
      (c : Call) (fuel dhcp : ℕ) (s : Scan) → Inv s → Left (options_loop c fuel dhcp max s)
  unfolding options_loop
  options_loop-Left c zero dhcp s i = tt
  options_loop-Left c (suc fuel) dhcp s i =
      if_elim Left (ltb s.op max) _ _
        (λ t.
          after_round-Left c (round c dhcp max s) (options_loop c fuel dhcp max)
            (round-Kept c dhcp s (ground arith) i) (options_loop-Left c fuel dhcp))
        (λ _. i)
