-- ===== src/Agent/Own.antt =====
-- dhcp_relay_validate_agent_option on a buffer with a circuit id of four bytes and a remote id.
use ops_ipapps.Base.{
  ℕ, suc, ◌+◌, ◌/◌, ◌%◌, ◌^◌, ◌<◌, ◌≡◌, refl, sym, subst, if◌then◌else◌, ◌∙◌, ap, true, none, some,
  List, [], ◌∷◌, length, Text, arith,
}
use ops_ipapps.Packet.{Mem, load32, bytes32}
use ops_ipapps.Packet.Laws.{Holds}
use ops_ipapps.Ifaddrs.{Host, get_mac_from_ifname, ip_exists_on_interface}
use ops_ipapps.Global.{Option82RemoteId, remote_id_ip, remote_id_mac}
use ops_ipapps.Agent.{
  option_82_ok, option_82_mismatch, Option82Info, SubOptions, walked, bytes_equal, overlay,
  circuit_id_of, check_remote, check_both, after_walk, validate_agent_option, walk,
}
use ops_ipapps.Agent.Valid.{own_sub_options, walk_own}

circuit_id_of_own :
    (m : Mem) (buf circuit : ℕ) (remote : List ℕ)
    → circuit < 2 ^ 32
    → Holds m buf (own_sub_options circuit remote)
    → circuit_id_of m (buf + 2) ≡ circuit
unfolding circuit_id_of
circuit_id_of_own m buf circuit remote small held =
    let b0 : m (buf + 2) ≡ circuit / 2 ^ 24 % 256 = ground arith in
    let b1 : m (buf + 2 + 1) ≡ circuit / 2 ^ 16 % 256 = ground arith in
    let b2 : m (buf + 2 + 2) ≡ circuit / 2 ^ 8 % 256 = ground arith in
    let b3 : m (buf + 2 + 3) ≡ circuit % 256 = ground arith in rw (b0, b1, b2, b3) (omega arith)

pub load32-bytes32 : (m : Mem) (a v : ℕ) → v < 2 ^ 32 → Holds m a (bytes32 v) → load32 m a ≡ v
unfolding load32
load32-bytes32 m a v small held =
    let b0 : m a ≡ v % 256 = ground arith in
    let b1 : m (a + 1) ≡ v / 2 ^ 8 % 256 = ground arith in
    let b2 : m (a + 2) ≡ v / 2 ^ 16 % 256 = ground arith in
    let b3 : m (a + 3) ≡ v / 2 ^ 24 % 256 = ground arith in rw (b0, b1, b2, b3) (omega arith)

bytes_equal_held : (m : Mem) (a : ℕ) (vs : List ℕ) → Holds m a vs → bytes_equal m a vs ≡ true
unfolding bytes_equal
bytes_equal_held m a [] held = refl
bytes_equal_held m a (v ∷ vs) held = ground (arith, bytes_equal_held m (a + 1) vs held.1)

overlay_whole : (ws stale : List ℕ) → length ws ≡ length stale → overlay ws stale ≡ ws
unfolding overlay
overlay_whole [] [] e = refl
overlay_whole [] (s ∷ ss) e = absurd (omega arith)
overlay_whole (w ∷ ws) [] e = absurd (omega arith)
overlay_whole (w ∷ ws) (s ∷ ss) e = ap (◌∷◌ w) (overlay_whole ws ss (omega arith))

own_walk :
    (m : Mem) (buf circuit : ℕ) (remote : List ℕ)
    → Holds m buf (own_sub_options circuit remote)
    → walk
        (suc (8 + length remote))
        m
        buf
        (8 + length remote)
        0
        (record { circuit = none; remote = none })
      ≡ walked (record {
        circuit = some (record { at = buf + 2; len = 4 });
        remote = some (record { at = buf + 8; len = length remote });
      })
own_walk m buf circuit remote held =
    let fuel : suc (suc (suc (6 + length remote))) ≡ suc (8 + length remote) = omega arith in
    subst
      (λ f.
        walk f m buf (8 + length remote) 0 (record { circuit = none; remote = none })
        ≡ walked (record {
          circuit = some (record { at = buf + 2; len = 4 });
          remote = some (record { at = buf + 8; len = length remote });
        }))
      fuel (walk_own (6 + length remote) m buf circuit remote held)

validate_agent_option_lem :
    (h : Host) (name : Text) (stale : List ℕ) (m : Mem) (buf buflen : ℕ) (kind : Option82RemoteId)
    (info : Option82Info)
    → validate_agent_option h name stale m buf buflen kind info
      ≡ after_walk h name stale m kind
          (walk (suc buflen) m buf buflen 0 (record { circuit = none; remote = none }))
          info
unfolding validate_agent_option
validate_agent_option_lem h name stale m buf buflen kind info = refl

pub remote_held :
    (m : Mem) (buf circuit : ℕ) (remote : List ℕ)
    → Holds m buf (own_sub_options circuit remote)
    → Holds m (buf + 8) remote
remote_held m buf circuit remote held =
    let e : buf + 1 + 1 + 1 + 1 + 1 + 1 + 1 + 1 ≡ buf + 8 = omega arith in
    subst (λ a. Holds m a remote) e held.1.1.1.1.1.1.1.1

after_walk_lem :
    (h : Host) (name : Text) (stale : List ℕ) (m : Mem) (kind : Option82RemoteId) (s : SubOptions)
    (info : Option82Info)
    → after_walk h name stale m kind (walked s) info
      ≡ some (check_both h name stale m kind s.circuit s.remote info)
unfolding after_walk
after_walk_lem h name stale m kind s info = refl

check_both_own :
    (h : Host) (name : Text) (stale : List ℕ) (m : Mem) (buf circuit : ℕ) (kind : Option82RemoteId)
    (remote : List ℕ) (info : Option82Info)
    → circuit < 2 ^ 32
    → Holds m buf (own_sub_options circuit remote)
    → check_both h name stale m kind
        (some (record { at = buf + 2; len = 4 }))
        (some (record { at = buf + 8; len = length remote }))
        info
      ≡ check_remote h name stale m kind (record { at = buf + 8; len = length remote }) circuit info
unfolding check_both
check_both_own h name stale m buf circuit kind remote info small held =
    rw (circuit_id_of_own m buf circuit remote small held, check_both)

-- Where the memory at `buf` holds the two sub-options with a 32-bit circuit id, the remote id
-- decides. (`stale` is the uninitialised six-byte buffer that the MAC address is read into.)
pub validate_agent_option_remote :
    (h : Host) (name : Text) (stale : List ℕ) (m : Mem) (buf circuit : ℕ) (kind : Option82RemoteId)
    (remote : List ℕ) (info : Option82Info)
    → circuit < 2 ^ 32
    → Holds m buf (own_sub_options circuit remote)
    → validate_agent_option h name stale m buf (8 + length remote) kind info
      ≡ some (
          check_remote h name stale m kind
            (record { at = buf + 8; len = length remote })
            circuit
            info)
validate_agent_option_remote h name stale m buf circuit kind remote info small held =
    validate_agent_option_lem h name stale m buf (8 + length remote) kind info
    ∙ ap (λ w. after_walk h name stale m kind w info) (own_walk m buf circuit remote held)
    ∙ after_walk_lem h name stale m kind _ info
    ∙ ap some (check_both_own h name stale m buf circuit kind remote info small held)

pub check_remote_ip :
    (h : Host) (name : Text) (stale : List ℕ) (m : Mem) (at circuit ip : ℕ) (info : Option82Info)
    → ip < 2 ^ 32
    → Holds m at (bytes32 ip)
    → check_remote h name stale m remote_id_ip (record { at = at; len = 4 }) circuit info ≡ (
        if ip_exists_on_interface h name ip
        then (option_82_ok, record { circuit_id = circuit; ip_addr = ip })
        else (option_82_mismatch, info))
unfolding check_remote
check_remote_ip h name stale m at circuit ip info small held =
    rw (load32-bytes32 m at ip small held) refl

pub check_remote_mac :
    (h : Host) (name : Text) (stale : List ℕ) (m : Mem) (at circuit : ℕ) (mac : List ℕ)
    (info : Option82Info)
    → length stale ≡ 6
    → get_mac_from_ifname h name ≡ mac
    → length mac ≡ 6
    → Holds m at mac
    → check_remote h name stale m remote_id_mac (record { at = at; len = length mac }) circuit info
      ≡ (option_82_ok, record info { circuit_id = circuit })
unfolding check_remote
check_remote_mac h name stale m at circuit mac info six found len held =
    rw (found, overlay_whole mac stale (len ∙ sym six), bytes_equal_held m at mac held, len) refl
