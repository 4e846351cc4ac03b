-- ===== src/Relay/Tests.antt =====
-- Concrete packets for the relay and the forwarder.
use ops_ipapps.Base.{
  ℕ, ◌-◌, ◌^◌, ◌≡◌, ◌≢◌, refl, true, Option, none, some, List, [], ◌∷◌, ◌++◌, arith, ◌==◌,
  if◌then◌else◌, Text,
}
use ops_ipapps.Base.{false}
use ops_ipapps.Packet.{load32, load_be16}
use ops_ipapps.Packet.{store_bytes, store8, dhcp_header, udp_header}
use ops_ipapps.Feature.{dhcp_relay_option82, get_feature_status, is_enabled, test_bit}
use ops_ipapps.Global.{replace, remote_id_ip}
use ops_ipapps.Ifaddrs.{Host, inet, get_lowest_ip_on_interface, get_if_index_from_ip_address}
use ops_ipapps.Option82.Process.{Processed, pktlen, process_option82_message}
use ops_ipapps.Relay.{Intf, PktInfo, State, Env}
use ops_ipapps.Relay.Forward.{forward_packet}
use ops_ipapps.Relay.Requests.{call_of, relay_to_dhcp_server}
use ops_ipapps.Relay.Receive.{Datagram, packet_recv}
use ops_ipapps.Relay.Reaches.{
  sent_to, servers_of, requests_of, prepared, Passes, relay_to_dhcp_server_reaches,
  forward_packet_reaches,
}
use ops_ipapps.Options.{scan_opt, option_end, next_option, pickup_opt}
use ops_ipapps.Option82.{noop}
use ops_ipapps.Option82.Process.Noop.{process_option82_message_disabled}
use ops_ipapps.Relay.Replies.{relay_to_dhcp_client}
use ops_ipapps.Relay.Answers.{
  Answers, PassesBack, index_of_reply, aged, Sends, kind_at, message_type,
  relay_to_dhcp_client_reaches,
}
use ops_ipapps.Relay.Off.{IsOff, Quiet, packet_recv_off}

abbrev eth : Text
eth = b'e' ∷ []

abbrev host : Host
host = record {
  ifaddrs = some (record { ifa_name = eth; ifa_addr = inet 20 } ∷ []);
  nameindex = some ((3, eth) ∷ []);
  indextoname = λ i. if i == 3 then some eth else none;
}

abbrev env : Env
env = record {
  host = host;
  config = record { config = 8; policy = replace; r_id = remote_id_ip };
  pkt = 0;
  accepts = λ es e. true;
  stale = [];
  signed = true;
}

abbrev node : Intf
node = record {
  servers =
      record { ip_address = 40; udp_port = 67 }
      ∷ record { ip_address = 41; udp_port = 53 }
      ∷ record { ip_address = 42; udp_port = 67 }
      ∷ [];
  bootp_gw = 0;
  counters = record {
    client_drops = 0;
    client_valids = 0;
    serv_drops = 0;
    serv_valids = 0;
    client_drops_with_option82 = 0;
    client_valids_with_option82 = 0;
    serv_drops_with_option82 = 0;
    serv_valids_with_option82 = 0;
  };
}

abbrev info : PktInfo
info = record { ifindex = 3; spec_dst = 0; addr = 0 }

-- A request with a message type and no other option.
abbrev state : State
state = record {
  mem =
      store_bytes (store8 (store_bytes (store8 (λ a. 0) 0 0x45) 22 (0 ∷ 67 ∷ 1 ∷ 0 ∷ [])) 28 1) 264
        (99 ∷ 130 ∷ 83 ∷ 99 ∷ 53 ∷ 1 ∷ 1 ∷ 255 ∷ []);
  interfaces = λ name. some node;
  events = [];
}

lowest_of_host : get_lowest_ip_on_interface host eth ≡ 20
unfolding get_lowest_ip_on_interface
lowest_of_host = refl

state-Passes : Passes env info state eth node
unfolding store_bytes store8 dhcp_header udp_header get_lowest_ip_on_interface
state-Passes = record {
  indexed = λ e. omega arith;
  named = refl;
  address = λ e. omega arith;
  hops = omega arith;
  listed = refl;
}

relay_to_dhcp_server_reaches_example :
    (p : Processed) × (process_option82_message
        (call_of env 3 eth 0)
        (record { circuit_id = 0; ip_addr = get_lowest_ip_on_interface host eth })
        (prepared env state).mem
      ≡ some p)
    × (s' : State) × (relay_to_dhcp_server env info state ≡ some s')
    × (sent_to s'.events ≡ [] ++ requests_of p.result node.servers)
relay_to_dhcp_server_reaches_example =
    relay_to_dhcp_server_reaches env info state eth node state-Passes

index_ne : 3 ≢ 2 ^ 32 - 1
index_ne e = omega arith

address_ne : get_lowest_ip_on_interface host eth ≢ 0
unfolding get_lowest_ip_on_interface
address_ne e = omega arith

forward_packet_reaches_example :
    sent_to (forward_packet env 53 100 info state).events ≡ [] ++ servers_of 53 node.servers
forward_packet_reaches_example =
    forward_packet_reaches env 53 100 info state eth node index_ne refl address_ne refl

env-IsOff : IsOff env
unfolding get_feature_status test_bit
env-IsOff = record { relay = refl; forwarder = refl }

abbrev datagrams : List (Option Datagram)
datagrams =
    some (record { payload = 0x45 ∷ []; size = 1; has_control = true; messages = some info ∷ [] })
    ∷ none
    ∷ []

packet_recv_off_example :
    (s' : State) × (packet_recv env datagrams state ≡ some s') × Quiet state s'
packet_recv_off_example = packet_recv_off env env-IsOff datagrams state

-- The same host with option 82 off, and an acknowledgement for a client behind its interface.
abbrev plain_env : Env
plain_env = record env { config = record { config = 2; policy = replace; r_id = remote_id_ip } }

abbrev reply : State
reply = record state {
  mem =
      store_bytes
        (store8
          (store8 (store8 (store_bytes (store8 (λ a. 0) 0 0x45) 22 (0 ∷ 67 ∷ 0 ∷ 252 ∷ [])) 28 2) 52
            20)
          44 9)
        264 (99 ∷ 130 ∷ 83 ∷ 99 ∷ 53 ∷ 1 ∷ 5 ∷ 255 ∷ []);
}

reply-PassesBack : PassesBack plain_env reply eth node
unfolding get_if_index_from_ip_address load32 store_bytes store8 dhcp_header udp_header
reply-PassesBack = record { indexed = λ e. omega arith; named = refl; listed = refl }

option82_off : is_enabled (get_feature_status 2 dhcp_relay_option82) ≡ false
unfolding get_feature_status test_bit
option82_off = refl

reply_type : message_type plain_env (aged plain_env reply).mem 20 28 ≡ some (some 268)
unfolding scan_opt option_end next_option pickup_opt pktlen load_be16 store_bytes store8
reply_type = refl

relay_to_dhcp_client_reaches_example :
    (ds : List (ℕ × ℕ)) × Sends
      (aged plain_env reply).mem
      (dhcp_header reply.mem 0)
      (kind_at (aged plain_env reply).mem (some 268))
      noop
      ds
    × Answers (relay_to_dhcp_client plain_env info reply) ([] ++ ds)
unfolding udp_header dhcp_header store_bytes store8
relay_to_dhcp_client_reaches_example =
    relay_to_dhcp_client_reaches plain_env info reply eth node
      (record {
        result = noop;
        mem = (aged plain_env reply).mem;
        info = record { circuit_id = 0; ip_addr = 0 };
      })
      (some 268) reply-PassesBack
      (process_option82_message_disabled (call_of plain_env (index_of_reply plain_env reply) eth 0)
        (record { circuit_id = 0; ip_addr = 0 }) (aged plain_env reply).mem option82_off)
      reply_type
