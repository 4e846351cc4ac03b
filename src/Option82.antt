-- ===== src/Option82.antt =====
-- process_dhcp_relay_option82_message of relay/udpfwd/src/dhcp_options.c: the in-place rewriting of
-- the options of a relayed DHCP message.
pub mod Tests
pub mod Process
pub mod Ends
pub mod Copy
pub mod Strip
pub mod Untouched
use ops_ipapps.Base.{
  ℕ, zero, suc, ◌+◌, ◌-◌, ◌*◌, ◌/◌, ◌%◌, ◌^◌, Bool, true, false, ◌&&◌, not, Option, none, some,
  List, [], ◌∷◌, ◌++◌, ltb, leb, ◌==◌, if◌then◌else◌, length, Text,
}
use ops_ipapps.Packet.{
  Mem, store8, store_bytes, memmove, clear, load_be16, store_be16, load32, bytes32, udp_header,
  dhcp_header, ip_len, ip_sum, uh_ulen, uh_sum, dhcp_giaddr, dhcp_options, magic_len, bootrequest,
  bootreply, pad_tag, dhcp_msgtype, dhcp_maxmsgsize, dhcp_agent_options, end_tag,
}
use ops_ipapps.Feature.{
  FeatureStatus, dhcp_relay_option82, dhcp_relay_option82_validate, disable, enable,
  get_feature_status,
}
use ops_ipapps.Global.{
  FeatureConfig, Option82Policy, keep, drop, replace, Option82RemoteId, remote_id_ip, remote_id_mac,
  remote_id_invalid,
}
use ops_ipapps.Ifaddrs.{Host, get_mac_from_ifname}
use ops_ipapps.Agent.{
  Validation, option_82_ok, option_82_mismatch, invalid_option_82, Option82Info, get_option82_len,
  validate_agent_option,
}

pub data Option82Result : Type 0 where
  valid dropped noop : Option82Result

-- The arguments, and the memory that the uninitialised `mac` buffer happens to hold.
pub record Call : Type 0 where
  pub host : Host
  pub config : FeatureConfig
  pub pkt : ℕ
  pub if_index : ℕ
  pub if_name : Text
  pub bootp_gw : ℕ
  pub stale : List ℕ

-- The memory and the local variables of the loop; `op` is option_parser_ptr.
pub record Scan : Type 0 where
  pub mem : Mem
  pub info : Option82Info
  pub op : ℕ
  pub sp : ℕ
  pub is_dhcp : Bool
  pub end_pad : Option ℕ
  pub good_agent_option : Bool
  pub max_msg_size : ℕ

-- How a round of the loop ends: the next round, or a `return` with the memory as it is.
pub data Next : Type 0 where
  continue : Scan → Next
  return : Option82Result → Scan → Next
  stuck : Next

-- How the loop ends.
pub data Outcome : Type 0 where
  finished : Scan → Outcome
  returned : Option82Result → Scan → Outcome
  out_of_fuel : Outcome

-- The end of the loop body: move the option down to `sp`, and step both pointers by the length that
-- is then at option_parser_ptr[1].
pub copy_option : Scan → Next
copy_option s =
    let m = if s.sp == s.op then s.mem else memmove s.mem s.sp s.op (s.mem (s.op + 1) + 2) in
    continue (record s {
      mem = m;
      end_pad = none;
      sp = s.sp + (m (s.op + 1) + 2);
      op = s.op + (m (s.op + 1) + 2);
    })

max_size_option : ℕ → Scan → Next
max_size_option dhcp s =
    if s.mem dhcp == bootrequest
    then (if s.mem (s.op + 1) == 2
        then (let size = s.mem (s.op + 2) * 256 + s.mem (s.op + 3) in
            copy_option (record s { max_msg_size = if ltb size 576 then 0 else size }))
        else return dropped s)
    else copy_option s

skip_option : Scan → Scan
skip_option s = record s { op = s.op + (s.mem (s.op + 1) + 2) }

after_validation : Scan → Option (Validation × Option82Info) → Next
unfolding skip_option
after_validation s none = stuck
after_validation s (some (invalid_option_82, info)) = return dropped (record s { info = info })
after_validation s (some (option_82_mismatch, info)) =
    continue (skip_option (record s { info = info }))
after_validation s (some (option_82_ok, info)) =
    continue (skip_option (record s { info = info; good_agent_option = true }))

by_policy : Option82Policy → Scan → Next
unfolding skip_option
by_policy keep s = return valid s
by_policy drop s = return dropped s
by_policy policy s = continue (skip_option s)

module _ (c : Call) where
  agent_option : ℕ → Scan → Next
  agent_option dhcp s =
      if not s.is_dhcp
      then copy_option s
      else if load32 s.mem (dhcp + dhcp_giaddr) == 0
      then return dropped s
      else (let s' = record s { end_pad = none } in
          if s.mem dhcp == bootreply
          then after_validation s' (
              validate_agent_option c.host c.if_name c.stale s.mem (s.op + 2) (s.mem (s.op + 1))
                c.config.r_id s.info)
          else if s.mem dhcp == bootrequest
          then by_policy c.config.policy s'
          else copy_option s')

  -- One round: the `switch` on the tag and what follows it.
  pub round : ℕ → ℕ → Scan → Next
  round dhcp max s =
      let tag = s.mem s.op in
      if tag == pad_tag
      then continue (record s {
        end_pad = some s.sp;
        mem = store8 s.mem s.sp tag;
        sp = s.sp + 1;
        op = s.op + 1;
      })
      else if tag == dhcp_msgtype
      then copy_option (record s { is_dhcp = true })
      else if tag == dhcp_maxmsgsize
      then max_size_option dhcp s
      else if tag == end_tag
      then continue (record s {
        mem = if s.sp == s.op then s.mem else store8 s.mem s.sp tag;
        sp = s.sp + 1;
        op = max;
      })
      else if tag == dhcp_agent_options
      then agent_option dhcp s
      else copy_option s

  after_round : Next → (Scan → Outcome) → Outcome
  after_round (continue s) k = k s
  after_round (return r s) k = returned r s
  after_round stuck k = out_of_fuel

  pub options_loop : ℕ → ℕ → ℕ → Scan → Outcome
  unfolding round after_round
  options_loop zero dhcp max s = out_of_fuel
  options_loop (suc fuel) dhcp max s =
      let rest = after_round (round dhcp max s) (options_loop fuel dhcp max) in
      if ltb s.op max then rest else finished s
