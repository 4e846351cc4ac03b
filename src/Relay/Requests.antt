-- ===== src/Relay/Requests.antt =====
-- udpfwd_relay_to_dhcp_server of relay/udpfwd/src/udpfwd_xmit.c: requests to the DHCP servers.

use ops_ipapps.Base.{
  ℕ, ◌+◌, ◌%◌, Bool, true, false, Option, none, some, List, [], ◌∷◌, ltb, ◌==◌, if◌then◌else◌, not,
  ◌&&◌, Text,
}
use ops_ipapps.Packet.{
  Mem, store8, load32, store32, load_be16, load_le16, store_le16, udp_header, dhcp_header, ip_len,
  ip_ttl, ip_src, uh_sport, dhcp_hops, dhcp_giaddr,
}
use ops_ipapps.Feature.{dhcp_relay_hop_count_increment, get_feature_status, is_enabled}
use ops_ipapps.Ifaddrs.{no_index, get_lowest_ip_on_interface, ip_exists_on_interface}
use ops_ipapps.Option82.{Call, Option82Result, valid, dropped, noop}
use ops_ipapps.Option82.Process.{Processed, process_option82_message}
use ops_ipapps.Relay.{
  Server, Counters, Intf, PktInfo, State, Env, dhcps_port, dhcpc_port, max_hops, increment, count,
  send_pkt,
}

abbrev pub call_of : Env → ℕ → Text → ℕ → Call
call_of env if_index if_name bootp_gw = record {
  host = env.host;
  config = env.config;
  pkt = env.pkt;
  if_index = if_index;
  if_name = if_name;
  bootp_gw = bootp_gw;
  stale = env.stale;
}

-- if (option82_result == DROPPED) …
abbrev pub unless_dropped {ℓ} : {A : Type ℓ} → Option82Result → A → A → A
unless_dropped valid stop go = go
unless_dropped dropped stop go = stop
unless_dropped noop stop go = go

abbrev count_client_valid : Counters → Counters
count_client_valid n = record n { client_valids = increment n.client_valids }

abbrev count_client_drop : Counters → Counters
count_client_drop n = record n { client_drops = increment n.client_drops }

abbrev pub count_client_valid82 : Counters → Counters
count_client_valid82 n = record n {
  client_valids_with_option82 = increment n.client_valids_with_option82;
}

abbrev pub count_client_drop82 : Counters → Counters
count_client_drop82 n = record n {
  client_drops_with_option82 = increment n.client_drops_with_option82;
}

-- uh_sport is compared as it stands, in network order, with the number 68.
unfoldable pub correct_port : ℕ → Mem → Mem
correct_port udph m =
    if load_le16 m (udph + uh_sport) == dhcpc_port
    then store_le16 m (udph + uh_sport) dhcps_port
    else m

-- dhcp->hops++ if the feature is on, and iph->ip_ttl--, on bytes.
unfoldable pub count_hop : Env → ℕ → Mem → Mem
count_hop env dhcp m =
    let m' =
      if is_enabled (get_feature_status env.config.config dhcp_relay_hop_count_increment)
      then store8 m (dhcp + dhcp_hops) ((m (dhcp + dhcp_hops) + 1) % 256)
      else m in
    store8 m' (env.pkt + ip_ttl) ((m' (env.pkt + ip_ttl) + 255) % 256)

-- The address that stands for the relay in the requests of an interface.
abbrev pub gateway : Env → Text → ℕ → ℕ → ℕ
gateway env if_name bootp_gw interface_ip =
    if not (bootp_gw == 0) && ip_exists_on_interface env.host if_name bootp_gw
    then bootp_gw
    else interface_ip

-- A giaddr that another relay wrote is kept.
unfoldable pub stamp : Env → Text → ℕ → ℕ → ℕ → Mem → Mem
stamp env if_name bootp_gw interface_ip dhcp m =
    if load32 m (dhcp + dhcp_giaddr) == 0
    then store32 m (dhcp + dhcp_giaddr) (gateway env if_name bootp_gw interface_ip)
    else m

module _ (env : Env) (if_name : Text) (interface_ip size : ℕ) where
  unfoldable pub count_sent : State × Bool → State
  count_sent (s, true) = count if_name count_client_valid s
  count_sent (s, false) = count if_name count_client_drop s

  -- An unset source address becomes the interface's.
  unfoldable pub set_source : State → State
  set_source s =
      if load32 s.mem (env.pkt + ip_src) == 0
      then record s { mem = store32 s.mem (env.pkt + ip_src) interface_ip }
      else s

  unfoldable pub send_to_server : PktInfo → Server → State → State
  unfolding count_sent set_source
  send_to_server info server s =
      count_sent (
        send_pkt env size (record info { ifindex = 0 }) server.ip_address dhcps_port (set_source s))

  -- The `for` loop over the servers of the interface.
  unfoldable pub server_loop : List Server → PktInfo → State → State
  unfolding send_to_server
  server_loop [] info s = s
  server_loop (server ∷ servers) info s =
      let skipped = server_loop servers info s in
      let sent = server_loop servers (record info { ifindex = 0 }) (send_to_server info server s) in
      if not (server.udp_port == dhcps_port) then skipped else sent

module _ (env : Env) (info : PktInfo) where
  -- What is counted after option 82 processing.
  unfoldable pub count_option82 : Text → Option82Result → State → State
  count_option82 if_name valid s = count if_name count_client_valid82 s
  count_option82 if_name dropped s = count if_name count_client_drop82 s
  count_option82 if_name noop s = s

  unfoldable pub relay_processed : Text → Intf → ℕ → ℕ → Processed → State → State
  unfolding count_option82 stamp server_loop
  relay_processed if_name node interface_ip dhcp p s =
      let s' = count_option82 if_name p.result (record s { mem = p.mem }) in
      let m = stamp env if_name node.bootp_gw interface_ip dhcp p.mem in
      let sent =
        server_loop env if_name interface_ip (load_be16 m (env.pkt + ip_len)) node.servers info
          (record s' { mem = m }) in
      unless_dropped p.result s' sent

  unfoldable pub relay_option : Text → Intf → ℕ → ℕ → Option Processed → State → Option State
  unfolding relay_processed
  relay_option if_name node interface_ip dhcp none s = none
  relay_option if_name node interface_ip dhcp (some p) s =
      some (relay_processed if_name node interface_ip dhcp p s)

  -- From the look-up in the interface table on.
  unfoldable pub relay_from : Text → ℕ → ℕ → Option Intf → State → Option State
  unfolding relay_option count_hop
  relay_from if_name interface_ip dhcp none s = some s
  relay_from if_name interface_ip dhcp (some node) s =
      let m = count_hop env dhcp s.mem in
      relay_option if_name node interface_ip dhcp
        (process_option82_message (call_of env info.ifindex if_name node.bootp_gw)
          (record { circuit_id = 0; ip_addr = interface_ip }) m)
        (record s { mem = m })

  unfoldable pub relay_on : Option Text → State → Option State
  unfolding relay_from correct_port
  relay_on none s = some s
  relay_on (some if_name) s =
      let interface_ip = get_lowest_ip_on_interface env.host if_name in
      let dhcp = dhcp_header s.mem env.pkt in
      let relayed =
        relay_from if_name interface_ip dhcp (s.interfaces if_name)
          (record s { mem = correct_port (udp_header s.mem env.pkt) s.mem }) in
      if interface_ip == 0
      then some s
      else if ltb max_hops (s.mem (dhcp + dhcp_hops))
      then some s
      else relayed

  -- `none` is no result of the code: the loop of option 82 processing ran out of rounds.
  unfoldable pub relay_to_dhcp_server : State → Option State
  unfolding relay_on
  relay_to_dhcp_server s =
      if info.ifindex == no_index then some s else relay_on (env.host.indextoname info.ifindex) s
