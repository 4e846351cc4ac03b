-- ===== src/Cli/Decode/Tests.antt =====
-- The arguments "1 tftp".
use ops_ipapps.Base.{◌≡◌, refl, true, false, some, [], ◌∷◌, Text}
use ops_ipapps.Cli.Decode.{
  Ipv4, UdpServer, accepted, for_forwarder, decode_port, decode_server_param,
}
use ops_ipapps.Cli.Decode.Accepts.{Accepts, decode_server_param-Accepts}

abbrev ipv4 : Ipv4
ipv4 = record {
  inet_pton = λ text. some 1;
  is_valid = λ addr. true;
  is_broadcast = λ addr. false;
  is_subnet_broadcast = λ addr. false;
}

abbrev one : Text
one = b'1' ∷ []

abbrev tftp : Text
tftp = b't' ∷ b'f' ∷ b't' ∷ b'p' ∷ []

abbrev tftp_server : UdpServer
tftp_server = record { ip_addr = one; udp_port = 69 }

tftp_accepted : decode_server_param ipv4 for_forwarder one tftp ≡ accepted tftp_server
unfolding decode_server_param decode_port
tftp_accepted = refl

decode_server_param-Accepts_example : Accepts ipv4 one tftp tftp_server
decode_server_param-Accepts_example =
    decode_server_param-Accepts ipv4 one tftp tftp_server tftp_accepted
