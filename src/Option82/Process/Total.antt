-- ===== src/Option82/Process/Total.antt =====
-- Processing a message ends with a result.
use ops_ipapps.Base.{ℕ, ◌≡◌, ◌≢◌, refl, Option, some, if_elim, arith}
use ops_ipapps.Packet.{Mem, dhcp_header}
use ops_ipapps.Feature.{dhcp_relay_option82, get_feature_status, is_enabled}
use ops_ipapps.Agent.{Option82Info}
use ops_ipapps.Option82.{Call, Outcome, finished, returned, out_of_fuel}
use ops_ipapps.Option82.Ends.{options_loop-ne}
use ops_ipapps.Option82.Process.{Processed, has_cookie, conclude, start, process_option82_message}

conclude-some :
    (c : Call) (udph dhcp : ℕ) (o : Outcome)
    → o ≢ out_of_fuel
    → (p : Processed) × (conclude c udph dhcp o ≡ some p)
unfolding conclude
conclude-some c udph dhcp (finished s) ne = (_, refl)
conclude-some c udph dhcp (returned r s) ne = (_, refl)
conclude-some c udph dhcp out_of_fuel ne = absurd (ne refl)

-- Processing ends on every packet with a result, whatever the bytes of the packet are.
pub process_option82_message_total :
    (c : Call) (info : Option82Info) (m : Mem)
    → (p : Processed) × (process_option82_message c info m ≡ some p)
unfolding process_option82_message start
process_option82_message_total c info m =
    let Ends : Option Processed → Type 0 = λ r. (p : Processed) × (r ≡ some p) in
    if_elim Ends (is_enabled (get_feature_status c.config.config dhcp_relay_option82)) _ _
      (λ _.
        if_elim Ends (has_cookie m (dhcp_header m c.pkt)) _ _
          (λ _. conclude-some c _ _ _ (options_loop-ne _ c _ _ _ (omega arith))) (λ _. (_, refl)))
      (λ _. (_, refl))
