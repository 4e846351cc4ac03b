-- ===== src/Lib.antt =====
-- The DHCP relay and UDP broadcast forwarder daemon (ops-udpfwd): its packet path, from the datagram
-- that is received to the datagrams that are sent, and the configuration that the packet path reads.
--
-- The program. A thread receives UDP packets into one buffer (relay/udpfwd/src/udpfwd_recv.c). By
-- the destination port and the BOOTP operation it hands them to the relay of requests, the relay of
-- replies, or the broadcast forwarder (relay/udpfwd/src/udpfwd_xmit.c). The relays rewrite the
-- options of the message in place, for the relay agent option 82 (relay/udpfwd/src/dhcp_options.c),
-- and look up interfaces and addresses of the host (relay/udpfwd/src/udpfwd_util.c). What is on or
-- off, and how option 82 is treated, is read from the System row (relay/udpfwd/src/udpfwd.c). The
-- commands of the switch's shell (relay/udpfwd/src/cli) write that row and the rows of servers.
--
-- The files.
--   Base       names that all files share: tests on numbers, conditionals and their splits, lists
--              over the native numbers, texts, strncmp, and runs on a state (Base/Run).
--   Packet     the packet buffer as a memory, a byte for each address, with its reads and writes, and
--              the layouts of struct ip, struct udphdr and struct dhcp_packet
--              (relay/include/udpfwd/dhcp_relay.h).
--   Feature    the feature bitmap: get_feature_status, set_feature_status (udpfwd_util.c).
--   Global     udpfwd_set_default_config and udpfwd_process_globalconfig_update with the functions
--              that it calls (udpfwd.c), as functions on the configuration. A row is a record of the
--              values that smap_get returns, and of the flags for modified columns.
--   Ifaddrs    getIfIndexfromIpAddress, getMacfromIfname, getLowestIpOnInterface and
--              ipExistsOnInterface (udpfwd_util.c). What getifaddrs, if_nameindex and if_indextoname
--              report is a value of type Host.
--   Options    dhcpScanOpt and dhcpPickupOpt (dhcp_options.c).
--   Agent      dhcp_relay_get_option82_len and dhcp_relay_validate_agent_option (dhcp_options.c).
--   Option82   process_dhcp_relay_option82_message (dhcp_options.c): the parser loop, a round at a
--              time, on a record of the loop's local variables and the memory; Option82/Process is
--              the function around the loop. The loop's early returns are values.
--   Checksum   in_cksum (udpfwd_util.c).
--   Relay      the shared state, the counters and udpfwd_send_pkt_through_socket (udpfwd_xmit.c).
--              Forward, Requests and Replies below it are udpfwd_forward_packet,
--              udpfwd_relay_to_dhcp_server and udpfwd_relay_to_dhcp_client; Receive is udpfwd_ctrl
--              and udp_packet_recv (udpfwd_recv.c). What is asked of the kernel is a list of events,
--              the last first; whether sendmsg takes a datagram is a parameter.
--   Stats      refresh_dhcp_relay_stats (relay/udpfwd/src/udpfwd_config.c): the statistics that
--              are written to the database.
--   Tables     the server and interface tables (relay/udpfwd/src/udpfwd_config.c): memory cells by
--              address, with the functions that look up, add, share and remove a server. An entry or a
--              node that is freed has no cell, and a use of it is a fault, the result `none`.
--   Rows       the handlers of rows of the database (udpfwd_config.c): deleted rows; Rows/Change
--              has the inserted and modified rows, and Rows/Dispatch which handler a change calls
--              (udpfwd.c). A row is a record of its columns and change flags.
--   Start      create_udp_socket and udpfwd_module_init (udpfwd.c), over what the system calls return.
--   Dhcpv6     the tables of the DHCPv6 relay (relay/dhcpv6r/src/dhcpv6_relay_config.c); Dhcpv6/Rows
--              has the handlers of rows, and Dhcpv6/Dispatch dhcpv6r_server_config_update
--              (relay/dhcpv6r/src/dhcpv6_relay.c).
--   Cli        the commands that write the database (relay/udpfwd/src/cli). RelayConfig, RelayRequest
--              and RelayCommands are the DHCP relay and option 82 commands of dhcp_relay_vty.c, Show
--              is "show dhcp-relay"; Servers and Decode are udpfwd_vty_utils.c; ServerConfig has
--              dhcp_relay_helperaddressconfig and udpfwd_serverconfig (udpfwd_vty.c), which have one
--              shape; Gateway is dhcp_relay_bootp_gateway_config, Forwarding udpfwd_globalconfig.
--              Asked, Wishes, Outcomes, Columns and Daemon state what the relay commands ask for and
--              what the daemon makes of it.
--   Source     the source of a protocol's packets, and the listing of the sources
--              (apps/sourceinterface/src/cli/source_interface_selection_vty.c); Source/Address is
--              set_source_ip, and Effective what it makes of a protocol's source.
-- Of each part, the other files below it hold its lemmas, and Tests holds its concrete examples.
--
-- Conventions. The machine is little-endian; addresses of IPv4 hosts are the numbers that such a
-- machine reads. Fixed-width numbers wrap around where the code can make them: counters, the hop
-- count, the TTL, the UDP length less the header (uint32_t), pointers in dhcpScanOpt (2^64). In
-- dhcpScanOpt the length byte is read through a plain `char`, so its sign is a parameter.
--
-- Loops on fuel. The option loop gets one round more than the message has bytes, since every round
-- moves the pointer on; the walk over sub-options likewise. Results about dhcpScanOpt hold for any
-- fuel or give the bound in their statement. In the relay of replies the search gets the message's
-- length and 129 rounds, more than any of its three areas has bytes; no result means that it has not
-- ended, which a signed `char` allows.
--
-- Parameters: the heap (malloc and calloc, with the promise that a block is not in use and as long as
-- it was asked for), inet_aton, the hash of OVS, and what the kernel and the database report. The hash
-- tables are association lists in the order in which they are walked. In the packet path the interface table
-- is a map from names to nodes. For the commands: whether a transaction starts and what its commit
-- makes of the database (all that was written or nothing), the string maps with the laws of get and
-- replace, inet_pton and the address tests of the OpenSwitch headers, the terminal's interface,
-- vrf_lookup, the texts of protocol_keys, and the name of the default VRF. A command sees the part of
-- the database that it reads and writes, with a new row at the end of its table; a pointer has eight
-- bytes.
--
-- Not modelled: the semaphore (a handler is one step), the dump functions, run_stats_update's timer,
-- the IDL loop (relay/common/relay_main.c), the start-up of the DHCPv6 relay, the statistics, the
-- listings and the running configuration that the shell prints, the commands that set an interface
-- as the source of a protocol or unset a source, those of SFTP, the diagnostic tools, and logging.
pub mod Base
pub mod Packet
pub mod Feature
pub mod Global
pub mod Ifaddrs
pub mod Options
pub mod Agent
pub mod Option82
pub mod Checksum
pub mod Cli
pub mod Source
pub mod Relay
pub mod Stats
pub mod Tables
pub mod Rows
pub mod Start
pub mod Dhcpv6
