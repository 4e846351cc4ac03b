-- ===== src/Relay/Replies.antt =====
-- udpfwd_relay_to_dhcp_client of relay/udpfwd/src/udpfwd_xmit.c: replies to the DHCP clients.
use ops_ipapps.Base.{
  ℕ, zero, suc, ◌+◌, ◌-◌, ◌%◌, ◌^◌, Bool, true, false, Option, none, some, List, [], ◌∷◌, leb, ◌==◌,
  if◌then◌else◌, ◌||◌, not, Text,
}
use ops_ipapps.Packet.{
  Mem, store8, load32, load_be16, udp_header, dhcp_header, ip_len, ip_ttl, dhcp_flags, dhcp_ciaddr,
  dhcp_yiaddr, dhcp_giaddr, dhcp_msgtype,
}
use ops_ipapps.Ifaddrs.{no_index, get_if_index_from_ip_address}
use ops_ipapps.Options.{pickup_opt}
use ops_ipapps.Option82.{Option82Result, valid, dropped, noop}
use ops_ipapps.Option82.Process.{Processed, pktlen, process_option82_message}
use ops_ipapps.Relay.{
  Counters, PktInfo, State, Env, Intf, set_arp, dhcpc_port, increment, count, request, send_pkt,
}
use ops_ipapps.Relay.Requests.{call_of, unless_dropped}

abbrev pub broadcast_address : ℕ
broadcast_address = 2 ^ 32 - 1

abbrev dhcpack : ℕ
dhcpack = 5

abbrev dhcpnak : ℕ
dhcpnak = 6

abbrev count_serv_valid : Counters → Counters
count_serv_valid n = record n { serv_valids = increment n.serv_valids }

abbrev count_serv_drop : Counters → Counters
count_serv_drop n = record n { serv_drops = increment n.serv_drops }

abbrev count_serv_valid82 : Counters → Counters
count_serv_valid82 n = record n {
  serv_valids_with_option82 = increment n.serv_valids_with_option82;
}

abbrev count_serv_drop82 : Counters → Counters
count_serv_drop82 n = record n { serv_drops_with_option82 = increment n.serv_drops_with_option82 }

-- option != NULL && *OPTBODY(option) == kind
unfoldable pub is_kind : Mem → Option ℕ → ℕ → Bool
is_kind m none kind = false
is_kind m (some option) kind = m (option + 2) == kind

-- Where a reply goes.
pub data Destination : Type 0 where
  to_all : Destination
  to_address : ℕ → Destination
  nowhere : Destination

unfoldable pub destination : Mem → ℕ → Option ℕ → Destination
unfolding is_kind
destination m dhcp option =
    let yiaddr = load32 m (dhcp + dhcp_yiaddr) in
    let ciaddr = load32 m (dhcp + dhcp_ciaddr) in
    if leb (2 ^ 15) (load_be16 m (dhcp + dhcp_flags)) || is_kind m option dhcpnak
    then to_all
    else if not (is_kind m option dhcpack)
    then to_address yiaddr
    else if not (yiaddr == 0)
    then to_address yiaddr
    else if not (ciaddr == 0)
    then to_address ciaddr
    else nowhere

-- The bytes of dhcp->chaddr that are copied to the ARP request.
abbrev load_bytes : Mem → ℕ → ℕ → List ℕ
load_bytes m a zero = []
load_bytes m a (suc n) = m a ∷ load_bytes m (a + 1) n

module _ (env : Env) (if_index : ℕ) (if_name : Text) (info : PktInfo) where
  unfoldable pub count_reply : State × Bool → State
  count_reply (s, true) = count if_name count_serv_valid s
  count_reply (s, false) = count if_name count_serv_drop s

  unfoldable pub send_reply : ℕ → State → State
  unfolding count_reply
  send_reply to s = count_reply (
      send_pkt env (load_be16 s.mem (env.pkt + ip_len))
        (record info { ifindex = if_index; spec_dst = 0 }) to dhcpc_port s)

  unfoldable pub reply_to : ℕ → Destination → State → State
  unfolding send_reply
  reply_to dhcp to_all s = send_reply broadcast_address s
  reply_to dhcp (to_address to) s = send_reply to (
      request
        (set_arp if_name to (s.mem (dhcp + 1)) (load_bytes s.mem (dhcp + 28) (s.mem (dhcp + 2)))) s)
  reply_to dhcp nowhere s = count if_name count_serv_drop s

  unfoldable pub reply_found : ℕ → Option (Option ℕ) → State → Option State
  unfolding reply_to
  reply_found dhcp none s = none
  reply_found dhcp (some option) s = some (reply_to dhcp (destination s.mem dhcp option) s)

  -- What is counted after option 82 processing.
  unfoldable pub count_reply82 : Option82Result → State → State
  count_reply82 valid s = count if_name count_serv_valid82 s
  count_reply82 dropped s = count if_name count_serv_drop82 s
  count_reply82 noop s = s

  unfoldable pub reply_processed : ℕ → ℕ → Option Processed → State → Option State
  unfolding count_reply82 reply_found
  reply_processed udph dhcp none s = none
  reply_processed udph dhcp (some p) s =
      let s' = count_reply82 p.result (record s { mem = p.mem }) in
      let len = pktlen p.mem udph in
      let found = pickup_opt (suc (len + 128)) env.signed p.mem dhcp len dhcp_msgtype in
      unless_dropped p.result (some s') (reply_found dhcp found s')

  -- From the look-up in the interface table on.
  unfoldable pub reply_from : ℕ → ℕ → Option Intf → State → Option State
  unfolding reply_processed
  reply_from udph dhcp none s = some s
  reply_from udph dhcp (some node) s =
      reply_processed udph dhcp
        (process_option82_message (call_of env if_index if_name 0)
          (record { circuit_id = 0; ip_addr = 0 }) s.mem)
        s

module _ (env : Env) (info : PktInfo) where
  unfoldable pub reply_on : ℕ → Option Text → State → Option State
  unfolding reply_from
  reply_on if_index none s = some s
  reply_on if_index (some if_name) s =
      let udph = udp_header s.mem env.pkt in
      let dhcp = dhcp_header s.mem env.pkt in
      let m = store8 s.mem (env.pkt + ip_ttl) ((s.mem (env.pkt + ip_ttl) + 255) % 256) in
      reply_from env if_index if_name info udph dhcp (s.interfaces if_name) (record s { mem = m })

  -- `none`: option 82 processing or the search for the message type has no result. Where `char` is
  -- signed, that search may indeed not end.
  unfoldable pub relay_to_dhcp_client : State → Option State
  unfolding reply_on
  relay_to_dhcp_client s =
      let if_index =
        get_if_index_from_ip_address env.host
          (load32 s.mem (dhcp_header s.mem env.pkt + dhcp_giaddr)) in
      if if_index == no_index then some s else reply_on if_index (env.host.indextoname if_index) s
