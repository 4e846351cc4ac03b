-- ===== src/Packet.antt =====
-- The packet buffer of the relay daemon as memory, and the header layouts that
-- relay/include/udpfwd/dhcp_relay.h and the system's ip.h and udp.h lay over it.
pub mod Laws
use ops_ipapps.Base.{
  ℕ, ◌+◌, ◌-◌, ◌*◌, ◌/◌, ◌%◌, ◌^◌, List, [], ◌∷◌, ltb, leb, ◌==◌, if◌then◌else◌, ◌&&◌, length,
}

-- The byte at each address.
abbrev pub Mem : Type 0
Mem = ℕ → ℕ

unfoldable pub store8 : Mem → ℕ → ℕ → Mem
store8 m a v b = if a == b then v else m b

-- memcpy(a, bytes, length)
unfoldable pub store_bytes : Mem → ℕ → List ℕ → Mem
store_bytes m a [] = m
store_bytes m a (v ∷ vs) = store_bytes (store8 m a v) (a + 1) vs

-- memmove(dst, src, n)
unfoldable pub memmove : Mem → ℕ → ℕ → ℕ → Mem
memmove m dst src n b = if leb dst b && ltb b (dst + n) then m (src + (b - dst)) else m b

-- memset(a, 0, n)
unfoldable pub clear : Mem → ℕ → ℕ → Mem
clear m a n b = if leb a b && ltb b (a + n) then 0 else m b

-- A 16-bit field in network order, through ntohs and htons.
unfoldable pub load_be16 : Mem → ℕ → ℕ
load_be16 m a = m a * 256 + m (a + 1)

unfoldable pub store_be16 : Mem → ℕ → ℕ → Mem
store_be16 m a v = store_bytes m a (v / 256 % 256 ∷ v % 256 ∷ [])

-- The same without ntohs: what a little-endian machine reads and writes.
unfoldable pub load_le16 : Mem → ℕ → ℕ
load_le16 m a = m a + m (a + 1) * 256

unfoldable pub store_le16 : Mem → ℕ → ℕ → Mem
store_le16 m a v = store_bytes m a (v % 256 ∷ v / 256 % 256 ∷ [])

-- An `s_addr`: the program moves these whole, so their value is the little-endian one.
unfoldable pub load32 : Mem → ℕ → ℕ
load32 m a = m a + m (a + 1) * 2 ^ 8 + m (a + 2) * 2 ^ 16 + m (a + 3) * 2 ^ 24

abbrev pub bytes32 : ℕ → List ℕ
bytes32 v = v % 256 ∷ v / 2 ^ 8 % 256 ∷ v / 2 ^ 16 % 256 ∷ v / 2 ^ 24 % 256 ∷ []

unfoldable pub store32 : Mem → ℕ → ℕ → Mem
store32 m a v = store_bytes m a (bytes32 v)

-- struct ip at `pkt`; ip_hl is the low half of its first byte.
unfoldable pub udp_header : Mem → ℕ → ℕ
udp_header m pkt = pkt + m pkt % 16 * 4

unfoldable pub dhcp_header : Mem → ℕ → ℕ
unfolding udp_header
dhcp_header m pkt = udp_header m pkt + 8

-- Offsets in struct ip, struct udphdr and struct dhcp_packet.
abbrev pub ip_len : ℕ
ip_len = 2

abbrev pub ip_ttl : ℕ
ip_ttl = 8

abbrev pub ip_sum : ℕ
ip_sum = 10

abbrev pub ip_src : ℕ
ip_src = 12

abbrev pub ip_dst : ℕ
ip_dst = 16

abbrev pub uh_sport : ℕ
uh_sport = 0

abbrev pub uh_dport : ℕ
uh_dport = 2

abbrev pub uh_ulen : ℕ
uh_ulen = 4

abbrev pub uh_sum : ℕ
uh_sum = 6

abbrev pub dhcp_hops : ℕ
dhcp_hops = 3

abbrev pub dhcp_flags : ℕ
dhcp_flags = 10

abbrev pub dhcp_ciaddr : ℕ
dhcp_ciaddr = 12

abbrev pub dhcp_yiaddr : ℕ
dhcp_yiaddr = 16

abbrev pub dhcp_giaddr : ℕ
dhcp_giaddr = 24

abbrev pub dhcp_sname : ℕ
dhcp_sname = 44

abbrev pub dhcp_file : ℕ
dhcp_file = 108

abbrev pub dhcp_options : ℕ
dhcp_options = 236

abbrev pub magic_len : ℕ
magic_len = 4

abbrev pub bootrequest : ℕ
bootrequest = 1

abbrev pub bootreply : ℕ
bootreply = 2

-- Option tags.
abbrev pub pad_tag : ℕ
pad_tag = 0

abbrev pub opt_overload : ℕ
opt_overload = 52

abbrev pub dhcp_msgtype : ℕ
dhcp_msgtype = 53

abbrev pub dhcp_maxmsgsize : ℕ
dhcp_maxmsgsize = 57

abbrev pub dhcp_agent_options : ℕ
dhcp_agent_options = 82

abbrev pub end_tag : ℕ
end_tag = 255
