-- ===== src/Option82/Process/Tests.antt =====
-- Concrete packets for process_dhcp_relay_option82_message.
use ops_ipapps.Base.{ℕ, ◌+◌, ◌≡◌, ◌<◌, refl, none, some, false, List, [], ◌∷◌, arith, length}
use ops_ipapps.Packet.{Mem, store8, store_bytes, load_be16, load32, udp_header, dhcp_header}
use ops_ipapps.Feature.{get_feature_status, test_bit}
use ops_ipapps.Global.{replace, remote_id_ip}
use ops_ipapps.Ifaddrs.{Host}
use ops_ipapps.Agent.{Option82Info}
use ops_ipapps.Option82.{Call, noop, options_loop, copy_option}
use ops_ipapps.Option82.Copy.{Opt}
use ops_ipapps.Option82.Strip.{strip, plain, roomy, may_strip}
use ops_ipapps.Option82.Process.{
  Processed, has_cookie, pktlen, start, conclude, after_loop, process_option82_message,
}
use ops_ipapps.Option82.Process.Own.{by_ip}
use ops_ipapps.Option82.Process.Request.{
  IsRequest, IsRelayed, encode_all, process_option82_message_request,
}
use ops_ipapps.Option82.Process.Total.{process_option82_message_total}
use ops_ipapps.Option82.Process.Noop.{Unchanged, process_option82_message_noop}

abbrev host : Host
host = record { ifaddrs = none; nameindex = none; indextoname = λ i. none }

abbrev call : Call
call = record {
  host = host;
  config = record { config = 8; policy = replace; r_id = remote_id_ip };
  pkt = 0;
  if_index = 7;
  if_name = [];
  bootp_gw = 10;
  stale = [];
}

abbrev info : Option82Info
info = record { circuit_id = 0; ip_addr = 0 }

-- A packet with a 20-byte IP header, a UDP length, a relayed request and options.
abbrev packet : List ℕ → Mem
packet options =
    store_bytes (store8 (store8 (store_bytes (store8 (λ a. 0) 0 0x45) 24 (1 ∷ 3 ∷ [])) 28 1) 52 10)
      264 (99 ∷ 130 ∷ 83 ∷ 99 ∷ options)

-- A message type, another relay's option, and a host name.
abbrev opts : List Opt
opts =
    record { tag = 53; body = 3 ∷ [] }
    ∷ record { tag = 82; body = 1 ∷ 0 ∷ [] }
    ∷ record { tag = 12; body = 97 ∷ [] }
    ∷ []

abbrev request : Mem
request = packet (53 ∷ 1 ∷ 3 ∷ 82 ∷ 2 ∷ 1 ∷ 0 ∷ 12 ∷ 1 ∷ 97 ∷ 255 ∷ [])

request-IsRequest : IsRequest call request opts
unfolding test_bit get_feature_status has_cookie pktlen dhcp_header udp_header load_be16 load32
    store_bytes store8 strip plain roomy may_strip
request-IsRequest = record {
  enabled = refl;
  replaces = refl;
  header = omega arith;
  cookie = refl;
  request = refl;
  within = omega arith;
  options =
      (refl, (refl, (refl, (refl, (refl, (refl, (refl, (refl, (refl, (refl, (refl, tt)))))))))));
  plain = refl;
  has_type = refl;
  room = refl;
  relayed = refl;
}

size_of_request : 251 + length (encode_all (strip false opts)) + 4 < 9228
unfolding strip
size_of_request = omega arith

process_option82_message_request_example :
    (p : Processed) × (process_option82_message call info request ≡ some p)
    × IsRelayed call opts (10 ∷ 0 ∷ 0 ∷ 0 ∷ []) request p
process_option82_message_request_example =
    process_option82_message_request call info request opts (10 ∷ 0 ∷ 0 ∷ 0 ∷ []) request-IsRequest
      by_ip size_of_request

process_option82_message_total_example :
    (p : Processed) × (process_option82_message call info request ≡ some p)
process_option82_message_total_example = process_option82_message_total call info request

-- A BOOTP message, with no message type.
abbrev bootp : Mem
bootp = packet (12 ∷ 1 ∷ 97 ∷ 255 ∷ [])

bootp_noop :
    process_option82_message call info bootp
    ≡ some (record { result = noop; mem = bootp; info = info })
unfolding test_bit get_feature_status process_option82_message has_cookie pktlen dhcp_header
    udp_header load_be16 load32 store_bytes store8 start options_loop conclude after_loop
    copy_option
bootp_noop = refl

process_option82_message_noop_example :
    Unchanged bootp info (record { result = noop; mem = bootp; info = info })
process_option82_message_noop_example =
    process_option82_message_noop call info bootp
      (record { result = noop; mem = bootp; info = info }) bootp_noop refl
