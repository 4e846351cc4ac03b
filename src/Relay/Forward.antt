-- ===== src/Relay/Forward.antt =====
-- udpfwd_forward_packet of relay/udpfwd/src/udpfwd_xmit.c: UDP broadcast forwarding.
use ops_ipapps.Base.{ℕ, Option, none, some, List, [], ◌∷◌, ◌==◌, if◌then◌else◌, not}
use ops_ipapps.Ifaddrs.{no_index, get_lowest_ip_on_interface}
use ops_ipapps.Relay.{Server, Intf, PktInfo, State, Env, send_pkt}

-- The changes of *pktInfo before a datagram is sent.
abbrev pub forward_info : ℕ → PktInfo → PktInfo
forward_info interface_ip info = record info {
  spec_dst = if info.addr == 0 then interface_ip else info.spec_dst;
  ifindex = 0;
}

module _ (env : Env) (size udp_dport interface_ip : ℕ) where
  -- The `for` loop over the servers of the interface.
  unfoldable pub forward_loop : List Server → PktInfo → State → State
  forward_loop [] info s = s
  forward_loop (server ∷ servers) info s =
      let skipped = forward_loop servers info s in
      let info' = forward_info interface_ip info in
      let sent =
        forward_loop servers info' (send_pkt env size info' server.ip_address udp_dport s).0 in
      if not (server.udp_port == udp_dport) then skipped else sent

module _ (env : Env) (udp_dport size : ℕ) (info : PktInfo) where
  unfoldable pub forward_from : Option Intf → ℕ → State → State
  unfolding forward_loop
  forward_from none interface_ip s = s
  forward_from (some node) interface_ip s =
      forward_loop env size udp_dport interface_ip node.servers info s

  unfoldable pub forward_on : Option (List ℕ) → State → State
  unfolding forward_from
  forward_on none s = s
  forward_on (some if_name) s =
      let interface_ip = get_lowest_ip_on_interface env.host if_name in
      if interface_ip == 0 then s else forward_from (s.interfaces if_name) interface_ip s

  unfoldable pub forward_packet : State → State
  unfolding forward_on
  forward_packet s =
      if info.ifindex == no_index then s else forward_on (env.host.indextoname info.ifindex) s
