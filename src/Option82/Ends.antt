-- ===== src/Option82/Ends.antt =====
-- The option loop ends: every round moves option_parser_ptr on, returns, or jumps to the end.
use ops_ipapps.Base.{
  ℕ, zero, suc, ◌+◌, ◌-◌, ◌*◌, ◌<◌, ◌≢◌, true, not, none, some, ltb, ◌==◌, if◌then◌else◌, arith,
  if_elim,
}
use ops_ipapps.Global.{Option82Policy, keep, drop, replace, invalid}
use ops_ipapps.Agent.{Validation, option_82_ok, option_82_mismatch, invalid_option_82, Option82Info}
use ops_ipapps.Agent.Valid.{validate_agent_option_total}
use ops_ipapps.Option82.{
  Call, Scan, Next, continue, return, stuck, out_of_fuel, copy_option, max_size_option,
  after_validation, by_policy, agent_option, round, after_round, options_loop,
}
use ops_ipapps.Packet.{
  load32, dhcp_giaddr, bootrequest, bootreply, pad_tag, dhcp_msgtype, dhcp_maxmsgsize,
  dhcp_agent_options, end_tag,
}

abbrev Progress : ℕ → ℕ → Next → Type 0
Progress max op (continue s) = max - s.op < max - op
Progress max op (return r s) = Unit {0}
Progress max op stuck = ⊥

module _ (max : ℕ) where
  copy_option-Progress : (s : Scan) → s.op < max → Progress max s.op (copy_option s)
  unfolding copy_option
  copy_option-Progress s h = omega arith

  abbrev sized : Scan → Scan
  sized s = record s {
    max_msg_size =
        if ltb (s.mem (s.op + 2) * 256 + s.mem (s.op + 3)) 576
        then 0
        else s.mem (s.op + 2) * 256 + s.mem (s.op + 3);
  }

  max_size_option-Progress :
      (dhcp : ℕ) (s : Scan) → s.op < max → Progress max s.op (max_size_option dhcp s)
  unfolding max_size_option
  max_size_option-Progress dhcp s h =
      if_elim (Progress max s.op) (s.mem dhcp == bootrequest) _ _
        (λ _.
          if_elim (Progress max s.op) (s.mem (s.op + 1) == 2) _ _
            (λ _. copy_option-Progress (sized s) h) (λ _. tt))
        (λ _. copy_option-Progress s h)

  after_validation-Progress :
      (s : Scan) (r : Validation × Option82Info)
      → s.op < max
      → Progress max s.op (after_validation s (some r))
  unfolding after_validation
  after_validation-Progress s (invalid_option_82, info) h = tt
  after_validation-Progress s (option_82_mismatch, info) h = omega arith
  after_validation-Progress s (option_82_ok, info) h = omega arith

  by_policy-Progress :
      (p : Option82Policy) (s : Scan) → s.op < max → Progress max s.op (by_policy p s)
  unfolding by_policy
  by_policy-Progress keep s h = tt
  by_policy-Progress drop s h = tt
  by_policy-Progress replace s h = omega arith
  by_policy-Progress invalid s h = omega arith

  agent_option-Progress :
      (c : Call) (dhcp : ℕ) (s : Scan) → s.op < max → Progress max s.op (agent_option c dhcp s)
  unfolding agent_option
  agent_option-Progress c dhcp s h =
      if_elim (Progress max s.op) (not s.is_dhcp) _ _ (λ _. copy_option-Progress s h)
        λ _.
          if_elim (Progress max s.op) (load32 s.mem (dhcp + dhcp_giaddr) == 0) _ _ (λ _. tt)
            λ _.
              let s' : Scan = record s { end_pad = none } in
              if_elim (Progress max s.op) (s.mem dhcp == bootreply) _ _
                (λ _.
                  let (r, e) =
                    validate_agent_option_total c.host c.if_name c.stale s.mem (s.op + 2)
                      (s.mem (s.op + 1)) c.config.r_id s.info in
                  rw e (after_validation-Progress s' r h))
                λ _.
                  if_elim (Progress max s.op) (s.mem dhcp == bootrequest) _ _
                    (λ _. by_policy-Progress c.config.policy s' h) (λ _. copy_option-Progress s' h)

  round-Progress :
      (c : Call) (dhcp : ℕ) (s : Scan) → s.op < max → Progress max s.op (round c dhcp max s)
  unfolding round
  round-Progress c dhcp s h =
      if_elim (Progress max s.op) (s.mem s.op == pad_tag) _ _ (λ _. omega arith)
        λ _.
          if_elim (Progress max s.op) (s.mem s.op == dhcp_msgtype) _ _
            (λ _. copy_option-Progress (record s { is_dhcp = true }) h)
            λ _.
              if_elim (Progress max s.op) (s.mem s.op == dhcp_maxmsgsize) _ _
                (λ _. max_size_option-Progress dhcp s h)
                λ _.
                  if_elim (Progress max s.op) (s.mem s.op == end_tag) _ _ (λ _. omega arith)
                    λ _.
                      if_elim (Progress max s.op) (s.mem s.op == dhcp_agent_options) _ _
                        (λ _. agent_option-Progress c dhcp s h) (λ _. copy_option-Progress s h)

  after_round-Progress :
      (c : Call) (dhcp fuel op : ℕ) (n : Next)
      → max - op < suc fuel
      → Progress max op n
      → ((s' : Scan) → max - s'.op < fuel → options_loop c fuel dhcp max s' ≢ out_of_fuel)
      → after_round c n (options_loop c fuel dhcp max) ≢ out_of_fuel
  unfolding after_round
  after_round-Progress c dhcp fuel op (continue s') enough p more = more s' (omega arith)
  after_round-Progress c dhcp fuel op (return r s') enough p more = λ e. cc
  after_round-Progress c dhcp fuel op stuck enough p more = absurd p

  pub options_loop-ne :
      (c : Call) (dhcp fuel : ℕ) (s : Scan)
      → max - s.op < fuel
      → options_loop c fuel dhcp max s ≢ out_of_fuel
  unfolding options_loop
  options_loop-ne c dhcp zero s enough = absurd (omega arith)
  options_loop-ne c dhcp (suc fuel) s enough =
      if_elim (λ o. o ≢ out_of_fuel) (ltb s.op max) _ _
        (λ t.
          after_round-Progress c dhcp fuel s.op (round c dhcp max s) enough
            (round-Progress c dhcp s (ground arith)) (options_loop-ne c dhcp fuel))
        (λ _ e. cc)
