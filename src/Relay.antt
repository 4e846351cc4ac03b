-- ===== src/Relay.antt =====
-- The state that the packet threads of the relay daemon share, and udpfwd_send_pkt_through_socket
-- of relay/udpfwd/src/udpfwd_xmit.c. The machine is little-endian.
pub mod Forward
pub mod Requests
pub mod Replies
pub mod Receive
pub mod Reaches
pub mod Answers
pub mod Off
pub mod Tests
use ops_ipapps.Base.{
  ℕ, ◌+◌, ◌*◌, ◌%◌, ◌^◌, Bool, true, false, ◌&&◌, Option, none, some, List, [], ◌∷◌, ◌++◌, ◌==◌,
  if◌then◌else◌, Text,
}
use ops_ipapps.Packet.{
  Mem, store_be16, store_le16, store32, load_le16, udp_header, ip_len, ip_sum, ip_dst, uh_dport,
  uh_sum,
}
use ops_ipapps.Checksum.{in_cksum}
use ops_ipapps.Global.{FeatureConfig}
use ops_ipapps.Ifaddrs.{Host}

-- A server of the server table; `udp_port` is in host order.
pub record Server : Type 0 where
  pub ip_address : ℕ
  pub udp_port : ℕ

-- The counters of an interface, each a uint32_t.
pub record Counters : Type 0 where
  pub client_drops : ℕ
  pub client_valids : ℕ
  pub serv_drops : ℕ
  pub serv_valids : ℕ
  pub client_drops_with_option82 : ℕ
  pub client_valids_with_option82 : ℕ
  pub serv_drops_with_option82 : ℕ
  pub serv_valids_with_option82 : ℕ

-- An interface node; `servers` is what the first addrCount entries of serverArray point to.
pub record Intf : Type 0 where
  pub servers : List Server
  pub bootp_gw : ℕ
  pub counters : Counters

-- struct in_pktinfo
pub record PktInfo : Type 0 where
  pub ifindex : ℕ
  pub spec_dst : ℕ
  pub addr : ℕ

-- What the daemon asks of the kernel: a datagram to send, or an ARP entry to set.
pub data Event : Type 0 where
  sendmsg : Mem → ℕ → PktInfo → ℕ → ℕ → Event
  set_arp : Text → ℕ → ℕ → List ℕ → Event

-- The packet buffer, the interface table by name, and the requests to the kernel, the last first.
pub record State : Type 0 where
  pub mem : Mem
  pub interfaces : Text → Option Intf
  pub events : List Event

-- What does not change: the host, the configuration, where the packet stands, whether sendmsg takes
-- a datagram (from the requests before it), the memory of the uninitialised `mac` buffer, and
-- whether `char` is signed.
pub record Env : Type 0 where
  pub host : Host
  pub config : FeatureConfig
  pub pkt : ℕ
  pub accepts : List Event → Event → Bool
  pub stale : List ℕ
  pub signed : Bool

abbrev pub dhcps_port : ℕ
dhcps_port = 67

abbrev pub dhcpc_port : ℕ
dhcpc_port = 68

abbrev pub max_hops : ℕ
max_hops = 16

abbrev pub increment : ℕ → ℕ
increment n = (n + 1) % 2 ^ 32

-- The names of the interface table.
abbrev pub same_text : Text → Text → Bool
same_text [] [] = true
same_text [] (y ∷ ys) = false
same_text (x ∷ xs) [] = false
same_text (x ∷ xs) (y ∷ ys) = (x == y) && same_text xs ys

abbrev pub with_counters : (Counters → Counters) → Option Intf → Option Intf
with_counters f none = none
with_counters f (some node) = some (record node { counters = f node.counters })

-- A counter of a node in the table is changed in place.
unfoldable pub count : Text → (Counters → Counters) → State → State
count name f s = record s {
  interfaces = λ other.
      if same_text name other then with_counters f (s.interfaces other) else s.interfaces other;
}

abbrev pub request : Event → State → State
request e s = record s { events = e ∷ s.events }

-- The packet as it is sent: the destination written to the headers, and the checksums. The length
-- that in_cksum gets is ip_len in network order.
unfoldable pub address_packet : ℕ → ℕ → ℕ → Mem → Mem
address_packet pkt to port m =
    let udph = udp_header m pkt in
    let m1 = store_be16 (store32 m (pkt + ip_dst) to) (udph + uh_dport) port in
    let m2 = store_le16 m1 (pkt + ip_sum) (in_cksum m1 pkt (load_le16 m1 (pkt + ip_len)) 0) in
    store_le16 m2 (udph + uh_sum) 0

-- udpfwd_send_pkt_through_socket. `to` and `port` are the destination, the port in host order.
unfoldable pub send_pkt : Env → ℕ → PktInfo → ℕ → ℕ → State → State × Bool
unfolding address_packet
send_pkt env size info to port s =
    let m = address_packet env.pkt to port s.mem in
    let e = sendmsg m size info to port in
    (record s { mem = m; events = e ∷ s.events }, env.accepts s.events e)
