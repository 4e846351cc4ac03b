-- ===== src/Cli/Decode.antt =====
-- decode_server_param of relay/udpfwd/src/cli/udpfwd_vty_utils.c: the arguments of the commands for
-- helper addresses and forward protocols.
pub mod Accepts
pub mod Tests
use ops_ipapps.Base.{
  ℕ, Bool, true, false, not, ◌&&◌, ◌||◌, Option, none, some, List, [], ◌∷◌, ℤ, pos, int_eq, leb,
  if◌then◌else◌, Text,
}
use ops_ipapps.Global.{atoi}
use ops_ipapps.Relay.{same_text}
use ops_ipapps.Cli.{
  Message, invalid_address, broadcast_multicast_loopback, multicast_loopback, invalid_udp_port,
}

-- inet_pton of the C library, with the address in host order and `none` for a text that is none, and
-- the tests on such an address that the OpenSwitch headers define.
pub record Ipv4 : Type 0 where
  pub inet_pton : Text → Option ℕ
  pub is_valid : ℕ → Bool
  pub is_broadcast : ℕ → Bool
  pub is_subnet_broadcast : ℕ → Bool

pub record UdpServer : Type 0 where
  pub ip_addr : Text
  pub udp_port : ℕ

pub data Decoded : Type 0 where
  rejected : Message → Decoded
  accepted : UdpServer → Decoded

pub data ServerType : Type 0 where
  for_relay for_forwarder : ServerType

abbrev pub udp_protocol : List (Text × ℕ)
udp_protocol =
    (b'd' ∷ b'n' ∷ b's' ∷ [], 53)
    ∷ (b'n' ∷ b't' ∷ b'p' ∷ [], 123)
    ∷ (b'n' ∷ b'e' ∷ b't' ∷ b'b' ∷ b'i' ∷ b'o' ∷ b's' ∷ b'-' ∷ b'n' ∷ b's' ∷ [], 137)
    ∷ (b'n' ∷ b'e' ∷ b't' ∷ b'b' ∷ b'i' ∷ b'o' ∷ b's' ∷ b'-' ∷ b'd' ∷ b'g' ∷ b'm' ∷ [], 138)
    ∷ (b'r' ∷ b'a' ∷ b'd' ∷ b'i' ∷ b'u' ∷ b's' ∷ [], 1812)
    ∷ (b'r' ∷ b'a' ∷ b'd' ∷ b'i' ∷ b'u' ∷ b's' ∷ b'-' ∷ b'o' ∷ b'l' ∷ b'd' ∷ [], 1645)
    ∷ (b'r' ∷ b'i' ∷ b'p' ∷ [], 520)
    ∷ (b's' ∷ b'n' ∷ b'm' ∷ b'p' ∷ [], 161)
    ∷ (b's' ∷ b'n' ∷ b'm' ∷ b'p' ∷ b'-' ∷ b't' ∷ b'r' ∷ b'a' ∷ b'p' ∷ [], 162)
    ∷ (b't' ∷ b'f' ∷ b't' ∷ b'p' ∷ [], 69)
    ∷ (b't' ∷ b'i' ∷ b'm' ∷ b'e' ∷ b'p' ∷ [], 37)
    ∷ []

-- isalpha of the first byte, the closing NUL of an empty text included
abbrev pub starts_alpha : Text → Bool
starts_alpha [] = false
starts_alpha (c ∷ cs) = (leb b'A' c && leb c b'Z') || (leb b'a' c && leb c b'z')

abbrev number_of : Text → List (Text × ℕ) → Option ℕ
number_of name [] = none
number_of name ((word, number) ∷ rest) =
    let later = number_of name rest in if same_text name word then some number else later

abbrev listed : ℤ → List (Text × ℕ) → Option ℕ
listed n [] = none
listed n ((word, number) ∷ rest) =
    let later = listed n rest in if int_eq n (pos number) then some number else later

-- The port that the second argument names, if the protocol is in the table.
unfoldable pub decode_port : Text → Option ℕ
decode_port arg =
    if starts_alpha arg then number_of arg udp_protocol else listed (atoi arg) udp_protocol

-- Why an address that is not valid is rejected, if it is.
abbrev rejection : Ipv4 → ServerType → ℕ → Option Message
rejection ip for_forwarder addr =
    if ip.is_broadcast addr || not (ip.is_subnet_broadcast addr)
    then some broadcast_multicast_loopback
    else none
rejection ip for_relay addr =
    if not (ip.is_broadcast addr) || not (ip.is_subnet_broadcast addr)
    then some multicast_loopback
    else none

abbrev with_server_port : Text → Option ℕ → Decoded
with_server_port address none = rejected invalid_udp_port
with_server_port address (some port) = accepted (record { ip_addr = address; udp_port = port })

-- The port stays 0 in the relay's server.
abbrev accept : ServerType → Text → Text → Decoded
accept for_relay address port = accepted (record { ip_addr = address; udp_port = 0 })
accept for_forwarder address port = with_server_port address (decode_port port)

abbrev unless_rejected : Option Message → Decoded → Decoded
unless_rejected none d = d
unless_rejected (some message) d = rejected message

abbrev decode_address : Ipv4 → ServerType → Text → Text → Option ℕ → Decoded
decode_address ip type address port none = rejected invalid_address
decode_address ip type address port (some addr) =
    unless_rejected (if ip.is_valid addr then none else rejection ip type addr)
      (accept type address port)

-- `address` and `port` are argv[0] and argv[1]; the relay's commands have no argv[1], and it is not
-- read for them.
unfoldable pub decode_server_param : Ipv4 → ServerType → Text → Text → Decoded
decode_server_param ip type address port =
    decode_address ip type address port (ip.inet_pton address)
