-- ===== src/Start/Tests.antt =====
-- The start on concrete results of the system calls.
use ops_ipapps.Base.{Bool, true, false, some, []}
use ops_ipapps.Global.{zero_config}
use ops_ipapps.Start.{
  SocketOption, ip_pktinfo, ip_hdrincl, so_broadcast, Syscalls, Process, zeroed, module_init,
}
use ops_ipapps.Start.Releases.{Started, module_init-Started}

abbrev all_but_broadcast : SocketOption → Bool
all_but_broadcast ip_pktinfo = true
all_but_broadcast ip_hdrincl = true
all_but_broadcast so_broadcast = false

abbrev failing : Syscalls
failing = record {
  sem_init = true;
  socket = some 5;
  setsockopt = all_but_broadcast;
  calloc = true;
  pthread_create = true;
}

abbrev process : Process
process = record {
  config = zero_config;
  sock_fd = 0;
  intf_hash_table = zeroed;
  server_hash_map = zeroed;
  sockets = [];
  buffers = 0;
  threads = 0;
}

module_init-Started_example : Started process (module_init failing process)
module_init-Started_example = module_init-Started failing process
