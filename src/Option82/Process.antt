-- ===== src/Option82/Process.antt =====
-- process_dhcp_relay_option82_message as a whole: the guards before the loop, the option that is
-- added to a request, and the lengths that are written back.
pub mod Total
pub mod Noop
pub mod Own
pub mod Accepted
pub mod Lengths
pub mod Sent
pub mod Request
pub mod Tests
use ops_ipapps.Base.{
  ℕ, zero, suc, ◌+◌, ◌-◌, ◌*◌, ◌/◌, ◌%◌, ◌^◌, Bool, true, false, ◌&&◌, not, Option, none, some,
  List, [], ◌∷◌, ◌++◌, ltb, leb, ◌==◌, if◌then◌else◌, length, Text,
}
use ops_ipapps.Packet.{
  Mem, store8, store_bytes, clear, load_be16, store_be16, bytes32, udp_header, dhcp_header, ip_len,
  ip_sum, uh_ulen, uh_sum, dhcp_options, magic_len, bootrequest, bootreply, dhcp_agent_options,
  end_tag,
}
use ops_ipapps.Feature.{
  FeatureStatus, dhcp_relay_option82, dhcp_relay_option82_validate, disable, enable,
  get_feature_status, is_enabled,
}
use ops_ipapps.Global.{Option82RemoteId, remote_id_ip, remote_id_mac, remote_id_invalid}
use ops_ipapps.Ifaddrs.{get_mac_from_ifname}
use ops_ipapps.Agent.{Option82Info, get_option82_len}
use ops_ipapps.Option82.{
  Option82Result, valid, dropped, noop, Call, Scan, Outcome, finished, returned, out_of_fuel,
  options_loop,
}

-- What the function leaves: its result, the memory, and *pkt_info. `none` is no result of the code.
pub record Processed : Type 0 where
  pub result : Option82Result
  pub mem : Mem
  pub info : Option82Info

abbrev pub recv_buffer_size : ℕ
recv_buffer_size = 9228

-- sizeof(struct dhcp_packet) - DFLTOPTLEN + 5
abbrev pub minbootplen : ℕ
minbootplen = 241

-- memcmp(dhcp->options, dhcpCookie, MAGIC_LEN) == 0
pub has_cookie : Mem → ℕ → Bool
has_cookie m dhcp =
    (m (dhcp + dhcp_options) == 99)
    && (m (dhcp + dhcp_options + 1) == 130)
    && (m (dhcp + dhcp_options + 2) == 83)
    && (m (dhcp + dhcp_options + 3) == 99)

-- DHCP_PKTLEN(udph) in a uint32_t
unfoldable pub pktlen : Mem → ℕ → ℕ
pktlen m udph = (load_be16 m (udph + uh_ulen) + (2 ^ 32 - 8)) % 2 ^ 32

module _ (c : Call) where
  -- The option's header and the circuit id.
  pub own_header : List ℕ
  own_header =
      dhcp_agent_options
      ∷ (get_option82_len c.config.r_id - 2)
      ∷ 1
      ∷ 4
      ∷ c.if_index / 2 ^ 24 % 256
      ∷ c.if_index / 2 ^ 16 % 256
      ∷ c.if_index / 2 ^ 8 % 256
      ∷ c.if_index % 256
      ∷ []

  -- The remote id is written behind the header at `sp`, and the new `sp` returned. The MAC address
  -- is written by getMacfromIfname, as long as it is; `sp` moves on by six.
  pub write_remote : Option82RemoteId → Option82Info → Mem → ℕ → Mem × ℕ
  write_remote remote_id_mac info m sp = (
    store_bytes (store_bytes m sp (2 ∷ 6 ∷ [])) (sp + 2) (get_mac_from_ifname c.host c.if_name),
    sp + 8,
  )
  write_remote remote_id_ip info m sp = (
    store_bytes m sp (2 ∷ 4 ∷ bytes32 (if c.bootp_gw == 0 then info.ip_addr else c.bootp_gw)),
    sp + 6,
  )
  write_remote remote_id_invalid info m sp = (m, sp)

  -- `if (opt82) { … }`
  pub add_option82 : Option82Info → Mem → ℕ → Mem × ℕ
  unfolding own_header write_remote
  add_option82 info m sp =
      let sp' = if m (sp - 1) == end_tag then sp - 1 else sp in
      let (m', sp'') = write_remote c.config.r_id info (store_bytes m sp' own_header) (sp' + 8) in
      (store8 m' sp'' end_tag, sp'' + 1)

  -- The padding and the lengths at the end of the function.
  pub write_lengths : Mem → ℕ → ℕ → ℕ → Mem
  write_lengths m udph dhcp sp =
      let len = sp - dhcp in
      let m' = if ltb len minbootplen then clear m sp (minbootplen - len) else m in
      let len' = if ltb len minbootplen then minbootplen else len in
      let m1 = store_be16 m' (udph + uh_ulen) (len' + 8) in
      let m2 = store_bytes m1 (udph + uh_sum) (0 ∷ 0 ∷ []) in
      let m3 = store_be16 m2 (c.pkt + ip_len) (len' + 8 + m2 c.pkt % 16 * 4) in
      store_bytes m3 (c.pkt + ip_sum) (0 ∷ 0 ∷ [])

  -- Whether the option fits the buffer and the maximum size that the client names, if it names one.
  pub fits : ℕ → ℕ → Bool
  fits packlen max_msg_size =
      if ltb packlen recv_buffer_size
      then (if max_msg_size == 0 then true else leb packlen max_msg_size)
      else false

  -- if (end_pad != NULL) sp = end_pad
  pub back_to_pad : Option ℕ → ℕ → ℕ
  back_to_pad none sp = sp
  back_to_pad (some pad) sp = pad

  -- The request branch: go back to the last pad, and add the option if it fits.
  pub finish_request : ℕ → Scan → Mem × ℕ
  unfolding fits back_to_pad add_option82
  finish_request dhcp s =
      let sp = back_to_pad s.end_pad s.sp in
      if fits (sp - dhcp + get_option82_len c.config.r_id) s.max_msg_size
      then add_option82 s.info s.mem sp
      else (s.mem, sp)

  -- What follows the loop.
  pub after_loop : ℕ → ℕ → Scan → Processed
  unfolding finish_request write_lengths
  after_loop udph dhcp s =
      if not s.is_dhcp
      then record { result = noop; mem = s.mem; info = s.info }
      else if s.mem dhcp == bootreply
      then record {
        result =
            if s.good_agent_option
            then valid
            else if is_enabled (get_feature_status c.config.config dhcp_relay_option82_validate)
            then dropped
            else valid;
        mem = s.mem;
        info = s.info;
      }
      else (let (m, sp) =
            if s.mem dhcp == bootrequest then finish_request dhcp s else (s.mem, s.sp) in
          record { result = valid; mem = write_lengths m udph dhcp sp; info = s.info })

  pub conclude : ℕ → ℕ → Outcome → Option Processed
  unfolding after_loop
  conclude udph dhcp (finished s) = some (after_loop udph dhcp s)
  conclude udph dhcp (returned r s) = some (record { result = r; mem = s.mem; info = s.info })
  conclude udph dhcp out_of_fuel = none

  pub start : ℕ → Option82Info → Mem → Scan
  start dhcp info m = record {
    mem = m;
    info = info;
    op = dhcp + dhcp_options + magic_len;
    sp = dhcp + dhcp_options + magic_len;
    is_dhcp = false;
    end_pad = none;
    good_agent_option = false;
    max_msg_size = 0;
  }

  -- Each round moves option_parser_ptr on, so one round for each byte is enough.
  pub process_option82_message : Option82Info → Mem → Option Processed
  unfolding has_cookie pktlen conclude start
  process_option82_message info m =
      let udph = udp_header m c.pkt in
      let dhcp = dhcp_header m c.pkt in
      let max = dhcp + pktlen m udph in
      let run : Option Processed =
        conclude udph dhcp (options_loop c (suc (pktlen m udph)) dhcp max (start dhcp info m)) in
      let unchanged : Option Processed = some (record { result = noop; mem = m; info = info }) in
      if is_enabled (get_feature_status c.config.config dhcp_relay_option82)
      then (if has_cookie m dhcp then run else unchanged)
      else unchanged
