-- ===== src/Relay/Receive.antt =====
-- udpfwd_ctrl and udp_packet_recv of relay/udpfwd/src/udpfwd_recv.c: the receiving thread.
use ops_ipapps.Base.{
  ℕ, ◌+◌, Bool, Option, none, some, List, [], ◌∷◌, ◌==◌, ◌||◌, if◌then◌else◌, not, Text,
}
use ops_ipapps.Packet.{
  store_bytes, load_be16, load32, udp_header, dhcp_header, uh_dport, ip_dst, bootrequest, bootreply,
}
use ops_ipapps.Feature.{dhcp_relay, udp_bcast_forwarder, get_feature_status, is_enabled}
use ops_ipapps.Ifaddrs.{no_index, max_uint32}
use ops_ipapps.Relay.{PktInfo, State, Env, dhcps_port, dhcpc_port}
use ops_ipapps.Relay.Forward.{forward_packet}
use ops_ipapps.Relay.Requests.{relay_to_dhcp_server}
use ops_ipapps.Relay.Replies.{relay_to_dhcp_client}

-- What recvmsg hands over: the bytes, whether the control buffer has room for a header, and the
-- control messages, those of another kind as `none`.
pub record Datagram : Type 0 where
  pub payload : List ℕ
  pub size : ℕ
  pub has_control : Bool
  pub messages : List (Option PktInfo)

-- The first IP_PKTINFO message.
unfoldable pub pktinfo_of : List (Option PktInfo) → Option PktInfo
pktinfo_of [] = none
pktinfo_of (none ∷ rest) = pktinfo_of rest
pktinfo_of (some info ∷ rest) = some info

-- The next round of the loop, if this one came to an end.
abbrev pub go_on : Option State → (State → Option State) → Option State
go_on none next = none
go_on (some s) next = next s

module _ (env : Env) where
  -- udpfwd_ctrl
  unfoldable pub ctrl : ℕ → PktInfo → State → Option State
  ctrl size info s =
      let dport = load_be16 s.mem (udp_header s.mem env.pkt + uh_dport) in
      let op = s.mem (dhcp_header s.mem env.pkt) in
      if (dport == dhcps_port) || (dport == dhcpc_port)
      then (if not (is_enabled (get_feature_status env.config.config dhcp_relay))
          then some s
          else if op == bootrequest
          then relay_to_dhcp_server env info s
          else if op == bootreply
          then (if not (load32 s.mem (env.pkt + ip_dst) == max_uint32)
              then relay_to_dhcp_client env info s
              else some s)
          else some s)
      else if not (is_enabled (get_feature_status env.config.config udp_bcast_forwarder))
      then some s
      else some (forward_packet env dport size info s)

  -- The check of the input interface.
  unfoldable pub ctrl_from : ℕ → PktInfo → Option Text → State → Option State
  unfolding ctrl
  ctrl_from size info none s = some s
  ctrl_from size info (some if_name) s = ctrl size info s

  unfoldable pub ctrl_with : ℕ → Option PktInfo → State → Option State
  unfolding ctrl_from
  ctrl_with size none s = some s
  ctrl_with size (some info) s =
      if info.ifindex == no_index
      then some s
      else ctrl_from size info (env.host.indextoname info.ifindex) s

  -- A round of the thread's loop.
  unfoldable pub receive : Datagram → State → Option State
  unfolding ctrl_with pktinfo_of
  receive d s =
      let s' = record s { mem = store_bytes s.mem env.pkt d.payload } in
      if not d.has_control then some s' else ctrl_with d.size (pktinfo_of d.messages) s'

  -- udp_packet_recv on what recvmsg returns in turn; a failure (`none`) ends the thread.
  unfoldable pub packet_recv : List (Option Datagram) → State → Option State
  unfolding receive
  packet_recv [] s = some s
  packet_recv (none ∷ rest) s = some s
  packet_recv (some d ∷ rest) s = go_on (receive d s) (packet_recv rest)
