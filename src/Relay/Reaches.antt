-- ===== src/Relay/Reaches.antt =====
-- Which servers the relayed and the forwarded datagrams go to.
use ops_ipapps.Base.{
  ℕ, ◌+◌, ◌≤◌, ◌≡◌, ◌≢◌, refl, sym, ◌∙◌, ap, Bool, true, false, some, List, [], ◌∷◌, ◌++◌, ◌==◌,
  ltb, if◌then◌else◌, not, Text, arith, if_elim,
}
use mathlib.Core.List.{append_assoc, append-nil}
use ops_ipapps.Packet.{dhcp_header, dhcp_hops, udp_header}
use ops_ipapps.Ifaddrs.{no_index, get_lowest_ip_on_interface}
use ops_ipapps.Option82.{Option82Result, valid, dropped, noop}
use ops_ipapps.Option82.Process.{Processed, process_option82_message}
use ops_ipapps.Option82.Process.Total.{process_option82_message_total}
use ops_ipapps.Relay.{
  Server, Intf, PktInfo, State, Env, Event, sendmsg, set_arp, dhcps_port, max_hops, count, send_pkt,
}
use ops_ipapps.Relay.Forward.{forward_loop, forward_from, forward_on, forward_packet}
use ops_ipapps.Relay.Requests.{
  call_of, unless_dropped, correct_port, count_hop, count_sent, set_source, send_to_server,
  server_loop, count_option82, relay_processed, relay_option, relay_from, relay_on,
  relay_to_dhcp_server,
}

-- The destination of a datagram.
abbrev pub destination_of : Event → List (ℕ × ℕ)
destination_of (sendmsg m size info to port) = (to, port) ∷ []
destination_of (set_arp if_name to htype bytes) = []

-- The destinations of the datagrams sent so far, the first one first.
abbrev pub sent_to : List Event → List (ℕ × ℕ)
sent_to [] = []
sent_to (e ∷ es) = sent_to es ++ destination_of e

-- The servers of a port, in the order of the table.
abbrev pub servers_of : ℕ → List Server → List (ℕ × ℕ)
servers_of port [] = []
servers_of port (server ∷ servers) =
    let rest = servers_of port servers in
    if server.udp_port == port then (server.ip_address, port) ∷ rest else rest

servers_of-other :
    (port : ℕ) (server : Server) (servers : List Server)
    → not (server.udp_port == port) ≡ true
    → servers_of port (server ∷ servers) ≡ servers_of port servers
servers_of-other port server servers h = ground arith

servers_of-same :
    (port : ℕ) (server : Server) (servers : List Server)
    → not (server.udp_port == port) ≡ false
    → servers_of port (server ∷ servers) ≡ (server.ip_address, port) ∷ servers_of port servers
servers_of-same port server servers h = ground arith

-- A round of a loop: the server is passed over, or sent to before the others.
one_more :
    (port : ℕ) (server : Server) (servers : List Server) (sent : List (ℕ × ℕ))
    (skipped went : State)
    → sent_to skipped.events ≡ sent ++ servers_of port servers
    → sent_to went.events ≡ (sent ++ ((server.ip_address, port) ∷ [])) ++ servers_of port servers
    → sent_to (if not (server.udp_port == port) then skipped else went).events
      ≡ sent ++ servers_of port (server ∷ servers)
one_more port server servers sent skipped went e f =
    if_elim (λ (x : State). sent_to x.events ≡ sent ++ servers_of port (server ∷ servers))
      (not (server.udp_port == port)) skipped went
      (λ h. e ∙ sym (ap (◌++◌ sent) (servers_of-other port server servers h)))
      (λ h.
        f ∙ append_assoc sent _ _ ∙ sym (ap (◌++◌ sent) (servers_of-same port server servers h)))

forward_loop_reaches :
    (env : Env) (size udp_dport interface_ip : ℕ) (servers : List Server) (info : PktInfo)
    (s : State)
    → sent_to (forward_loop env size udp_dport interface_ip servers info s).events
      ≡ sent_to s.events ++ servers_of udp_dport servers
unfolding forward_loop send_pkt
forward_loop_reaches env size udp_dport interface_ip [] info s = sym (append-nil _)
forward_loop_reaches env size udp_dport interface_ip (server ∷ servers) info s =
    one_more udp_dport server servers (sent_to s.events) _ _
      (forward_loop_reaches env size udp_dport interface_ip servers info s)
      (forward_loop_reaches env size udp_dport interface_ip servers _ _)

count_sent_events :
    (env : Env) (if_name : Text) (interface_ip size : ℕ) (r : State × Bool)
    → sent_to (count_sent env if_name interface_ip size r).events ≡ sent_to r.0.events
unfolding count_sent count
count_sent_events env if_name interface_ip size (s, true) = refl
count_sent_events env if_name interface_ip size (s, false) = refl

set_source_events :
    (env : Env) (if_name : Text) (interface_ip size : ℕ) (s : State)
    → (set_source env if_name interface_ip size s).events ≡ s.events
unfolding set_source
set_source_events env if_name interface_ip size s =
    if_elim (λ (x : State). x.events ≡ s.events) _ _ s (λ h. refl) (λ h. refl)

send_to_server_events :
    (env : Env) (if_name : Text) (interface_ip size : ℕ) (info : PktInfo) (server : Server)
    (s : State)
    → sent_to (send_to_server env if_name interface_ip size info server s).events
      ≡ sent_to s.events ++ ((server.ip_address, dhcps_port) ∷ [])
unfolding send_to_server send_pkt
send_to_server_events env if_name interface_ip size info server s =
    count_sent_events env if_name interface_ip size _
    ∙ ap (λ x. sent_to x ++ _) (set_source_events env if_name interface_ip size s)

server_loop_reaches :
    (env : Env) (if_name : Text) (interface_ip size : ℕ) (servers : List Server) (info : PktInfo)
    (s : State)
    → sent_to (server_loop env if_name interface_ip size servers info s).events
      ≡ sent_to s.events ++ servers_of dhcps_port servers
unfolding server_loop
server_loop_reaches env if_name interface_ip size [] info s = sym (append-nil _)
server_loop_reaches env if_name interface_ip size (server ∷ servers) info s =
    one_more dhcps_port server servers (sent_to s.events) _ _
      (server_loop_reaches env if_name interface_ip size servers info s)
      (server_loop_reaches env if_name interface_ip size servers _ _
        ∙ ap (λ x. x ++ servers_of dhcps_port servers)
            (send_to_server_events env if_name interface_ip size info server s))

-- The datagrams of a request: one for each DHCP server, unless option 82 processing drops it.
abbrev pub requests_of : Option82Result → List Server → List (ℕ × ℕ)
requests_of result servers = unless_dropped result [] (servers_of dhcps_port servers)

count_option82_events :
    (env : Env) (info : PktInfo) (if_name : Text) (r : Option82Result) (s : State)
    → (count_option82 env info if_name r s).events ≡ s.events
unfolding count_option82 count
count_option82_events env info if_name valid s = refl
count_option82_events env info if_name dropped s = refl
count_option82_events env info if_name noop s = refl

relay_processed_reaches :
    (env : Env) (info : PktInfo) (if_name : Text) (node : Intf) (interface_ip dhcp : ℕ)
    (p : Processed) (s : State)
    → sent_to (relay_processed env info if_name node interface_ip dhcp p s).events
      ≡ sent_to s.events ++ requests_of p.result node.servers
unfolding relay_processed
relay_processed_reaches env info if_name node interface_ip dhcp p s =
    split p.result _ _
      (ap sent_to (count_option82_events env info if_name p.result _) ∙ sym (append-nil _))
      (server_loop_reaches env if_name interface_ip _ node.servers info _
        ∙ ap (λ x. sent_to x ++ servers_of dhcps_port node.servers)
            (count_option82_events env info if_name p.result _))
  where
    split :
        (r : Option82Result) (stop go : State)
        → sent_to stop.events ≡ sent_to s.events ++ []
        → sent_to go.events ≡ sent_to s.events ++ servers_of dhcps_port node.servers
        → sent_to (unless_dropped r stop go).events ≡ sent_to s.events ++ requests_of r node.servers
    split valid stop go e f = f
    split dropped stop go e f = e
    split noop stop go e f = f

-- The memory that option 82 processing gets: the port and the hop count are already changed.
abbrev pub prepared : Env → State → State
prepared env s = record s {
  mem = count_hop env (dhcp_header s.mem env.pkt) (correct_port (udp_header s.mem env.pkt) s.mem);
}

-- What a request finds on its way: a known interface with an address and a node in the table, and a
-- hop count that is not above the limit.
pub record Passes (env : Env) (info : PktInfo) (s : State) (if_name : Text) (node : Intf)
    : Type 0 where
  pub indexed : info.ifindex ≢ no_index
  pub named : env.host.indextoname info.ifindex ≡ some if_name
  pub address : get_lowest_ip_on_interface env.host if_name ≢ 0
  pub hops : s.mem (dhcp_header s.mem env.pkt + dhcp_hops) ≤ max_hops
  pub listed : s.interfaces if_name ≡ some node

relay_to_dhcp_server-Passes :
    (env : Env) (info : PktInfo) (s : State) (if_name : Text) (node : Intf)
    → Passes env info s if_name node
    → relay_to_dhcp_server env info s
      ≡ relay_option env info if_name node
          (get_lowest_ip_on_interface env.host if_name)
          (dhcp_header s.mem env.pkt)
          (process_option82_message
            (call_of env info.ifindex if_name node.bootp_gw)
            (record { circuit_id = 0; ip_addr = get_lowest_ip_on_interface env.host if_name })
            (prepared env s).mem)
          (prepared env s)
unfolding relay_to_dhcp_server relay_on relay_from
relay_to_dhcp_server-Passes env info s if_name node q =
    let i : (info.ifindex == no_index) ≡ false = let h = q.indexed in ground arith in
    let a : (get_lowest_ip_on_interface env.host if_name == 0) ≡ false =
      let h = q.address in ground arith in
    let h : ltb max_hops (s.mem (dhcp_header s.mem env.pkt + dhcp_hops)) ≡ false =
      let h = q.hops in ground arith in
    simp (i, q.named, a, h, q.listed)

-- A DHCP request on a known interface that has an address and a node in the table, with a hop count
-- that is not above 16: option 82 processing has a result `p` for it, and the relay then has sent
-- one datagram to port 67 of each server of port 67 in the interface's table, in the table's order,
-- and no other; or, when that result is DROPPED, none at all.
pub relay_to_dhcp_server_reaches :
    (env : Env) (info : PktInfo) (s : State) (if_name : Text) (node : Intf)
    → Passes env info s if_name node
    → (p : Processed) × (process_option82_message
          (call_of env info.ifindex if_name node.bootp_gw)
          (record { circuit_id = 0; ip_addr = get_lowest_ip_on_interface env.host if_name })
          (prepared env s).mem
        ≡ some p)
      × (s' : State) × (relay_to_dhcp_server env info s ≡ some s')
      × (sent_to s'.events ≡ sent_to s.events ++ requests_of p.result node.servers)
unfolding relay_option
relay_to_dhcp_server_reaches env info s if_name node q =
    let address = get_lowest_ip_on_interface env.host if_name in
    let dhcp = dhcp_header s.mem env.pkt in
    let (p, e) =
      process_option82_message_total (call_of env info.ifindex if_name node.bootp_gw)
        (record { circuit_id = 0; ip_addr = address }) (prepared env s).mem in
    (
      p,
      e,
      relay_processed env info if_name node address dhcp p (prepared env s),
      relay_to_dhcp_server-Passes env info s if_name node q
          ∙ ap (λ o. relay_option env info if_name node address dhcp o (prepared env s)) e,
      relay_processed_reaches env info if_name node address dhcp p (prepared env s),
    )

-- A UDP broadcast on a known interface that has an address and a node in the table goes to each
-- server of its destination port in the interface's table, in the table's order, and to no other.
pub forward_packet_reaches :
    (env : Env) (udp_dport size : ℕ) (info : PktInfo) (s : State) (if_name : Text) (node : Intf)
    → info.ifindex ≢ no_index
    → env.host.indextoname info.ifindex ≡ some if_name
    → get_lowest_ip_on_interface env.host if_name ≢ 0
    → s.interfaces if_name ≡ some node
    → sent_to (forward_packet env udp_dport size info s).events
      ≡ sent_to s.events ++ servers_of udp_dport node.servers
unfolding forward_packet forward_on forward_from
forward_packet_reaches env udp_dport size info s if_name node indexed named address listed =
    let i : (info.ifindex == no_index) ≡ false = ground arith in
    let a : (get_lowest_ip_on_interface env.host if_name == 0) ≡ false = ground arith in
    simp (i, named, a, listed)
      (forward_loop_reaches env size udp_dport (get_lowest_ip_on_interface env.host if_name)
        node.servers info s)
