-- ===== src/Option82/Process/Noop.antt =====
-- A message for which processing answers NOOP is left as it was.
use ops_ipapps.Base.{
  ℕ, ◌≡◌, ◌≢◌, ◌⊎◌, inl, inr, refl, Bool, true, false, not, Option, some, none, if◌then◌else◌,
  if_elim, arith, ◌==◌, subst,
}
use ops_ipapps.Packet.{Mem, dhcp_header, bootreply}
use ops_ipapps.Feature.{dhcp_relay_option82, get_feature_status, is_enabled}
use ops_ipapps.Agent.{Option82Info}
use ops_ipapps.Option82.{Call, Scan, Outcome, finished, returned, out_of_fuel, noop, valid, dropped}
use ops_ipapps.Option82.Untouched.{Inv, Left, options_loop-Left}
use ops_ipapps.Option82.Process.{
  Processed, has_cookie, after_loop, conclude, start, process_option82_message,
}

module _ (m₀ : Mem) (info₀ : Option82Info) where
  -- The memory and the record are those that went in.
  pub record Unchanged (p : Processed) : Type 0 where
    pub mem : (a : ℕ) → p.mem a ≡ m₀ a
    pub info : p.info ≡ info₀

  abbrev NoopSame : Processed → Type 0
  NoopSame p = (p.result ≢ noop) ⊎ Unchanged p

  abbrev NoopSameIn : Option Processed → Type 0
  NoopSameIn none = Unit {0}
  NoopSameIn (some p) = NoopSame p

  reply_result : (b c : Bool) → (if b then valid else if c then dropped else valid) ≢ noop
  reply_result true c e = cc
  reply_result false true e = cc
  reply_result false false e = cc

  after_loop-NoopSame :
      (c : Call) (udph dhcp max : ℕ) (s : Scan)
      → Inv m₀ info₀ max s
      → NoopSame (after_loop c udph dhcp s)
  unfolding after_loop
  after_loop-NoopSame c udph dhcp max s i =
      if_elim NoopSame (not s.is_dhcp) _ _
        (λ n. elim i [
          | inl d ↦ absurd (ground arith)
          | inr same ↦ inr (record { mem = same.mem; info = same.info })
        ])
        λ _.
          if_elim NoopSame (s.mem dhcp == bootreply) _ _ (λ _. inl (reply_result _ _))
            λ _. inl (λ e. cc)

  conclude-NoopSame :
      (c : Call) (udph dhcp max : ℕ) (o : Outcome)
      → Left m₀ info₀ max o
      → NoopSameIn (conclude c udph dhcp o)
  unfolding conclude
  conclude-NoopSame c udph dhcp max (finished s) l = after_loop-NoopSame c udph dhcp max s l
  conclude-NoopSame c udph dhcp max (returned r s) l = inl l
  conclude-NoopSame c udph dhcp max out_of_fuel l = tt

  process-NoopSame : (c : Call) → NoopSameIn (process_option82_message c info₀ m₀)
  unfolding process_option82_message start
  process-NoopSame c =
      let same : Option Processed → Type 0 = NoopSameIn in
      let kept : NoopSameIn (some (record { result = noop; mem = m₀; info = info₀ })) =
        inr (record { mem = λ a. refl; info = refl }) in
      if_elim same (is_enabled (get_feature_status c.config.config dhcp_relay_option82)) _ _
        (λ _.
          if_elim same (has_cookie m₀ (dhcp_header m₀ c.pkt)) _ _
            (λ _. conclude-NoopSame c _ _ _ _ (
              options_loop-Left m₀ info₀ _ c _ _ _
                (inr (record { mem = λ a. refl; info = refl; pointers = inl refl }))))
            (λ _. kept))
        (λ _. kept)

noop-same :
    (m₀ : Mem) (info₀ : Option82Info) (p : Processed)
    → NoopSame m₀ info₀ p
    → p.result ≡ noop
    → Unchanged m₀ info₀ p
noop-same m₀ info₀ p (inl ne) e = absurd (ne e)
noop-same m₀ info₀ p (inr u) e = u

-- When processing answers NOOP (option 82 is off, the magic cookie is missing, or no message type
-- was found), every byte of the memory and *pkt_info are as they were.
pub process_option82_message_noop :
    (c : Call) (info : Option82Info) (m : Mem) (p : Processed)
    → process_option82_message c info m ≡ some p
    → p.result ≡ noop
    → Unchanged m info p
process_option82_message_noop c info m p e r =
    noop-same m info p (subst (NoopSameIn m info) e (process-NoopSame m info c)) r

-- With option 82 off nothing is read but the configuration.
pub process_option82_message_disabled :
    (c : Call) (info : Option82Info) (m : Mem)
    → is_enabled (get_feature_status c.config.config dhcp_relay_option82) ≡ false
    → process_option82_message c info m ≡ some (record { result = noop; mem = m; info = info })
unfolding process_option82_message
process_option82_message_disabled c info m off = simp off
