-- ===== src/Start/Releases.antt =====
-- What the start of the module leaves open.
use ops_ipapps.Base.{
  ℕ, ◌+◌, ◌-◌, ◌≡◌, refl, Bool, true, false, Option, none, some, List, [], ◌∷◌, if◌then◌else◌,
  arith, Bool-cases, inl, inr, ◌⊎◌, sym, subst, if_elim,
}
use ops_ipapps.Global.{zero_config, set_default_config}
use ops_ipapps.Start.{
  SocketOption, ip_pktinfo, ip_hdrincl, so_broadcast, Syscalls, Process, HashTable, zeroed,
  initialised, destroyed, close, set_option, configure, and_configure, with_socket,
  create_udp_socket, start_receiver, allocate, module_init,
}

-- cmap_init was called, and cmap_destroy was not.
abbrev pub is_open : HashTable → Bool
is_open initialised = true
is_open _ = false

-- What shash_init leaves once the module has started; before, the table may be zero bytes.
abbrev pub Usable : Bool → HashTable → Type 0
Usable false table = Unit
Usable true table = table ≡ initialised

-- A started module has a socket with the three options, a buffer and a thread more; one that has not
-- started has none of them.
pub record Started (p : Process) (r : Bool × Process) : Type 0 where
  pub config : r.1.config ≡ set_default_config zero_config
  pub interfaces : Usable r.0 r.1.intf_hash_table
  pub servers : is_open r.1.server_hash_map ≡ r.0
  pub sockets : r.1.sockets ≡ (
      if r.0
      then (r.1.sock_fd, so_broadcast ∷ ip_hdrincl ∷ ip_pktinfo ∷ []) ∷ p.sockets
      else p.sockets)
  pub buffers : r.1.buffers ≡ p.buffers + (if r.0 then 1 else 0)
  pub threads : r.1.threads ≡ p.threads + (if r.0 then 1 else 0)

close-cons :
    (fd : ℕ) (options : List SocketOption) (rest : List (ℕ × List SocketOption))
    → close fd ((fd, options) ∷ rest) ≡ rest
unfolding close
close-cons fd options rest = ground arith

set_option-cons :
    (fd : ℕ) (option : SocketOption) (options : List SocketOption)
    (rest : List (ℕ × List SocketOption))
    → set_option fd option ((fd, options) ∷ rest) ≡ (fd, option ∷ options) ∷ rest
unfolding set_option
set_option-cons fd option options rest = ground arith

abbrev configured : Process → ℕ → Process
configured p fd = record p {
  sockets = (fd, so_broadcast ∷ ip_hdrincl ∷ ip_pktinfo ∷ []) ∷ p.sockets;
}

-- The socket has its options, or there is none.
with_socket_lem :
    (sys : Syscalls) (p : Process) (fd : ℕ)
    → (with_socket sys (some fd) p ≡ (some fd, configured p fd))
      ⊎ (with_socket sys (some fd) p ≡ (none, p))
unfolding with_socket configure and_configure
with_socket_lem sys p fd = elim (Bool-cases (sys.setsockopt ip_pktinfo)) [
  | inr e ↦ inr (rw (e, close-cons fd [] p.sockets) refl)
  | inl e ↦ elim (Bool-cases (sys.setsockopt ip_hdrincl)) [
    | inr f ↦ inr (
        rw
          (
            e,
            set_option-cons fd ip_pktinfo [] p.sockets,
            f,
            close-cons fd (ip_pktinfo ∷ []) p.sockets,
          )
          refl)
    | inl f ↦ elim (Bool-cases (sys.setsockopt so_broadcast)) [
      | inr g ↦ inr (
          rw
            (
              e,
              set_option-cons fd ip_pktinfo [] p.sockets,
              f,
              set_option-cons fd ip_hdrincl (ip_pktinfo ∷ []) p.sockets,
              g,
              close-cons fd (ip_hdrincl ∷ ip_pktinfo ∷ []) p.sockets,
            )
            refl)
      | inl g ↦ inl (
          rw
            (
              e,
              set_option-cons fd ip_pktinfo [] p.sockets,
              f,
              set_option-cons fd ip_hdrincl (ip_pktinfo ∷ []) p.sockets,
              g,
              set_option-cons fd so_broadcast (ip_hdrincl ∷ ip_pktinfo ∷ []) p.sockets,
            )
            refl)
    ]
  ]
]

abbrev initial : Process → Process
initial p = record p {
  config = set_default_config zero_config;
  sock_fd = 0;
  intf_hash_table = zeroed;
  server_hash_map = zeroed;
}

not-Started : (p : Process) → Started p (false, initial p)
not-Started p = record {
  config = refl;
  interfaces = tt;
  servers = refl;
  sockets = refl;
  buffers = omega arith;
  threads = omega arith;
}

receiver-Started :
    (sys : Syscalls) (p : Process) (fd : ℕ)
    → Started p (allocate sys (some fd, configured (initial p) fd))
unfolding allocate start_receiver
receiver-Started sys p fd =
    let q : Process = record (configured (initial p) fd) {
      sock_fd = fd;
      buffers = p.buffers + 1;
      intf_hash_table = initialised;
      server_hash_map = initialised;
    } in
    let own = close-cons fd (so_broadcast ∷ ip_hdrincl ∷ ip_pktinfo ∷ []) p.sockets in
    if_elim (Started p) sys.calloc _ _
      (λ memory.
        if_elim (Started p) sys.pthread_create (true, record q { threads = q.threads + 1 })
          (
            false,
            record q {
              buffers = q.buffers - 1;
              sockets = close fd q.sockets;
              server_hash_map = destroyed;
            },
          )
          (λ thread. record {
            config = refl;
            interfaces = refl;
            servers = refl;
            sockets = refl;
            buffers = refl;
            threads = refl;
          })
          (λ none_started. record {
            config = refl;
            interfaces = tt;
            servers = refl;
            sockets = own;
            buffers = omega arith;
            threads = omega arith;
          }))
      (λ no_memory. record {
        config = refl;
        interfaces = tt;
        servers = refl;
        sockets = own;
        buffers = omega arith;
        threads = omega arith;
      })

socket-Started :
    (sys : Syscalls) (p : Process) (o : Option ℕ)
    → Started p (allocate sys (with_socket sys o (initial p)))
unfolding allocate with_socket
socket-Started sys p none = not-Started p
socket-Started sys p (some fd) = elim (with_socket_lem sys (initial p) fd) [
  | inl e ↦ subst (λ r. Started p (allocate sys r)) (sym e) (receiver-Started sys p fd)
  | inr e ↦ subst (λ r. Started p (allocate sys r)) (sym e) (not-Started p)
]

-- Whatever the system calls return: the control block has the defaults; if the start succeeds both
-- hash tables are initialised and there is one more socket, with its three options set, one more
-- buffer and one more thread; if it fails everything that was opened is closed and freed again, and
-- the map of servers was not initialised or is destroyed.
pub module_init-Started : (sys : Syscalls) (p : Process) → Started p (module_init sys p)
unfolding module_init create_udp_socket
module_init-Started sys p =
    if_elim (Started p) sys.sem_init _ _ (λ ready. socket-Started sys p sys.socket)
      (λ not_ready. not-Started p)
