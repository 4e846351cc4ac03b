-- ===== src/Start.antt =====
-- The start of the daemon's module: create_udp_socket and udpfwd_module_init of
-- relay/udpfwd/src/udpfwd.c. What the system calls return is a record.
pub mod Releases
pub mod Tests
use ops_ipapps.Base.{
  ℕ, ◌+◌, ◌-◌, Bool, true, false, Option, none, some, List, [], ◌∷◌, ◌==◌, if◌then◌else◌,
}
use ops_ipapps.Global.{GlobalConfig, zero_config, set_default_config}

pub data SocketOption : Type 0 where
  ip_pktinfo : SocketOption
  ip_hdrincl : SocketOption
  so_broadcast : SocketOption

-- Whether each call succeeds, with the descriptor that socket() returns.
pub record Syscalls : Type 0 where
  pub sem_init : Bool
  pub socket : Option ℕ
  pub setsockopt : SocketOption → Bool
  pub calloc : Bool
  pub pthread_create : Bool

-- A hash table of the control block: zero bytes, empty as its init function leaves it, or destroyed.
pub data HashTable : Type 0 where
  zeroed initialised destroyed : HashTable

-- The control block with its two tables, and what the process holds: its open sockets with the options set on them, the
-- receive buffers that are allocated, and the receiver threads.
pub record Process : Type 0 where
  pub config : GlobalConfig
  pub sock_fd : ℕ
  pub intf_hash_table : HashTable
  pub server_hash_map : HashTable
  pub sockets : List (ℕ × List SocketOption)
  pub buffers : ℕ
  pub threads : ℕ

unfoldable pub close : ℕ → List (ℕ × List SocketOption) → List (ℕ × List SocketOption)
close fd [] = []
close fd ((other, options) ∷ rest) = if other == fd then rest else (other, options) ∷ close fd rest

unfoldable pub set_option :
    ℕ → SocketOption → List (ℕ × List SocketOption) → List (ℕ × List SocketOption)
set_option fd option [] = []
set_option fd option ((other, options) ∷ rest) =
    if other == fd
    then (other, option ∷ options) ∷ rest
    else (other, options) ∷ set_option fd option rest

module _ (sys : Syscalls) where
  abbrev pub configure : ℕ → SocketOption → Process → Bool × Process
  unfolding close set_option
  configure fd option p =
      if sys.setsockopt option
      then (true, record p { sockets = set_option fd option p.sockets })
      else (false, record p { sockets = close fd p.sockets })

  abbrev pub and_configure : ℕ → SocketOption → Bool × Process → Bool × Process
  unfolding configure
  and_configure fd option (false, p) = (false, p)
  and_configure fd option (true, p) = configure fd option p

  abbrev socket_or_none : ℕ → Bool × Process → Option ℕ × Process
  socket_or_none fd (false, p) = (none, p)
  socket_or_none fd (true, p) = (some fd, p)

  unfoldable pub with_socket : Option ℕ → Process → Option ℕ × Process
  unfolding and_configure
  with_socket none p = (none, p)
  with_socket (some fd) p = socket_or_none fd (
      and_configure fd so_broadcast (
        and_configure fd ip_hdrincl
          (and_configure fd ip_pktinfo (true, record p { sockets = (fd, []) ∷ p.sockets }))))

  unfoldable pub create_udp_socket : Process → Option ℕ × Process
  unfolding with_socket
  create_udp_socket = with_socket sys.socket

  unfoldable pub start_receiver : Process → Bool × Process
  unfolding close
  start_receiver p = if sys.pthread_create then (true, record p { threads = p.threads + 1 }) else (
    false,
    record p {
      buffers = p.buffers - 1;
      sockets = close p.sock_fd p.sockets;
      server_hash_map = destroyed;
    },
  )

  unfoldable pub allocate : Option ℕ × Process → Bool × Process
  unfolding close start_receiver
  allocate (none, p) = (false, p)
  allocate (some fd, p) =
      if sys.calloc
      then start_receiver (record p {
        sock_fd = fd;
        buffers = p.buffers + 1;
        intf_hash_table = initialised;
        server_hash_map = initialised;
      })
      else (false, record p { sock_fd = fd; sockets = close fd p.sockets })

  -- memset clears the control block first; a failed socket() is -1.
  unfoldable pub module_init : Process → Bool × Process
  unfolding create_udp_socket allocate
  module_init p =
      let p₀ = record p {
        config = set_default_config zero_config;
        sock_fd = 0;
        intf_hash_table = zeroed;
        server_hash_map = zeroed;
      } in
      if sys.sem_init then allocate (create_udp_socket p₀) else (false, p₀)
