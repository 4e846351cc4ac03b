-- ===== src/Agent.antt =====
-- The relay agent option (82) of relay/udpfwd/src/dhcp_options.c: its length, and
-- dhcp_relay_validate_agent_option.
pub mod Tests
pub mod Valid
pub mod Own
use ops_ipapps.Base.{
  ℕ, zero, suc, ◌+◌, ◌-◌, ◌*◌, ◌%◌, ◌^◌, Bool, true, false, ◌&&◌, not, Option, none, some, List, [],
  ◌∷◌, ltb, leb, ◌==◌, if◌then◌else◌, length, Text,
}
use ops_ipapps.Packet.{Mem, load32}
use ops_ipapps.Ifaddrs.{Host, get_mac_from_ifname, ip_exists_on_interface}
use ops_ipapps.Global.{Option82RemoteId, remote_id_ip, remote_id_mac, remote_id_invalid}

-- Bytes for the option, its header included.
unfoldable pub get_option82_len : Option82RemoteId → ℕ
get_option82_len remote_id_mac = 2 + (2 + 4) + (2 + 6)
get_option82_len remote_id_ip = 2 + (2 + 4) + (2 + 4)
get_option82_len remote_id_invalid = 2 + (2 + 4)

pub data Validation : Type 0 where
  option_82_ok option_82_mismatch invalid_option_82 : Validation

pub record Option82Info : Type 0 where
  pub circuit_id : ℕ
  pub ip_addr : ℕ

-- A sub-option's value: its address and length.
pub record SubOption : Type 0 where
  pub at : ℕ
  pub len : ℕ

-- The two sub-options seen so far; NULL is `none`.
pub record SubOptions : Type 0 where
  pub circuit : Option SubOption
  pub remote : Option SubOption

-- What the walk over the sub-options ends with. `out_of_fuel` is no result of the code.
pub data WalkResult : Type 0 where
  walked : SubOptions → WalkResult
  malformed : WalkResult
  out_of_fuel : WalkResult

-- The `switch (opttype)`; `none` is its default, which rejects the option.
record_sub : ℕ → SubOption → SubOptions → Option SubOptions
record_sub opttype v s =
    if opttype == 1
    then some (record s { circuit = some v })
    else if opttype == 2
    then some (record s { remote = some v })
    else none

walk_on : Option SubOptions → (SubOptions → WalkResult) → WalkResult
walk_on none k = malformed
walk_on (some s) k = k s

-- The `for` loop. `iter < buflen - 1` on signed numbers is `iter + 1 < buflen`.
pub walk : ℕ → Mem → ℕ → ℕ → ℕ → SubOptions → WalkResult
unfolding record_sub walk_on
walk zero m buf buflen iter s = out_of_fuel
walk (suc fuel) m buf buflen iter s =
    let opttype = m (buf + iter) in
    let optlen = m (buf + iter + 1) in
    let value : SubOption = record { at = buf + iter + 2; len = optlen } in
    let rest = walk_on (record_sub opttype value s) (walk fuel m buf buflen (iter + 2 + optlen)) in
    if ltb (iter + 1) buflen
    then (if ltb buflen (iter + 2 + optlen) then malformed else rest)
    else walked s

-- memcmp(a, bytes, n) == 0, against bytes that are there; the code compares six. A failed lookup
-- leaves `mac` as it was: `stale` is what that memory held.
bytes_equal : Mem → ℕ → List ℕ → Bool
bytes_equal m a [] = true
bytes_equal m a (b ∷ bs) = (m a == b) && bytes_equal m (a + 1) bs

-- The first six bytes of `mac` after the lookup wrote `written` over `stale`.
pub overlay : List ℕ → List ℕ → List ℕ
overlay [] stale = stale
overlay (w ∷ ws) [] = []
overlay (w ∷ ws) (s ∷ ss) = w ∷ overlay ws ss

-- ((p[0] << 24) + (p[1] << 16) + (p[2] << 8) + p[3])
pub circuit_id_of : Mem → ℕ → ℕ
circuit_id_of m p = (m p * 2 ^ 24 + m (p + 1) * 2 ^ 16 + m (p + 2) * 2 ^ 8 + m (p + 3)) % 2 ^ 32

module _ (h : Host) (if_name : Text) (stale : List ℕ) where
  -- The `switch (remote_id)` and what follows it.
  unfoldable pub check_remote :
      Mem → Option82RemoteId → SubOption → ℕ → Option82Info → Validation × Option82Info
  unfolding bytes_equal overlay
  check_remote m remote_id_mac r circuit_id info =
      if (r.len == 6) && bytes_equal m r.at (overlay (get_mac_from_ifname h if_name) stale)
      then (option_82_ok, record info { circuit_id = circuit_id })
      else (option_82_mismatch, info)
  check_remote m remote_id_ip r circuit_id info =
      if (r.len == 4) && ip_exists_on_interface h if_name (load32 m r.at)
      then (option_82_ok, record { circuit_id = circuit_id; ip_addr = load32 m r.at })
      else (option_82_mismatch, info)
  check_remote m remote_id_invalid r circuit_id info =
      (option_82_ok, record info { circuit_id = circuit_id })

  check_both :
      Mem
      → Option82RemoteId
      → Option SubOption
      → Option SubOption
      → Option82Info
      → Validation × Option82Info
  unfolding check_remote circuit_id_of
  check_both m kind none remote info = (option_82_mismatch, info)
  check_both m kind (some c) none info = (option_82_mismatch, info)
  check_both m kind (some c) (some r) info =
      if c.len == 4
      then check_remote m kind r (circuit_id_of m c.at) info
      else (invalid_option_82, info)

  after_walk :
      Mem → Option82RemoteId → WalkResult → Option82Info → Option (Validation × Option82Info)
  unfolding check_both
  after_walk m kind (walked s) info = some (check_both m kind s.circuit s.remote info)
  after_walk m kind malformed info = some (invalid_option_82, info)
  after_walk m kind out_of_fuel info = none

  -- `buflen` rounds and one are enough: each takes two bytes at least.
  pub validate_agent_option :
      Mem → ℕ → ℕ → Option82RemoteId → Option82Info → Option (Validation × Option82Info)
  unfolding walk after_walk
  validate_agent_option m buf buflen kind info =
      after_walk m kind
        (walk (suc buflen) m buf buflen 0 (record { circuit = none; remote = none })) info
