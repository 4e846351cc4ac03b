-- ===== src/Rows/Update.antt =====
-- A change of a row of the forwarder: afterwards the interface has the servers that the row names.
use ops_ipapps.Base.{
  ℕ, ◌+◌, ◌%◌, ◌^◌, ◌<◌, ◌≤◌, ◌≡◌, refl, ◌∙◌, ap, subst, Bool, true, false, ◌&&◌, not, Option, none,
  some, List, ◌==◌, if◌then◌else◌, length, arith, Option-cases, inl, inr, ◌⊎◌, Text,
}
use ops_ipapps.Tables.{IntfNode, Tables, Allocator, max_servers, load_node, find_name}
use ops_ipapps.Tables.Heap.{cell}
use ops_ipapps.Tables.Valid.{ref_count_of, IsValid}
use ops_ipapps.Tables.Entries.{IsSound}
use ops_ipapps.Tables.Tally.{serves}
use ops_ipapps.Rows.{BcastForwarderRow, local_array, server_ip_exists}
use ops_ipapps.Rows.Change.{
  update_servers, store_servers, new_servers, bcast_change_node, bcast_change_port, node_or_new,
  udp_bcast_forwarder_config_change,
}
use ops_ipapps.Rows.Removal.{NodeLeft, Cleared, cleared, serves-cell, local_array_lem, key_count}
use ops_ipapps.Rows.Deletion.{NoZero}
use ops_ipapps.Rows.Freed.{map-keys}
use ops_ipapps.Rows.Storing.{
  IsPlentiful, store_servers_lem, times, server_ip_exists-times, new_servers_lem,
}

-- A server that is held `k` times before, and is named `m` times by the row.
abbrev pub updated : ℕ → ℕ → ℕ
updated k m = if m == 0 then 0 else if k == 0 then m else k

abbrev pub is_stale : (Text → Option ℕ) → BcastForwarderRow → ℕ → ℕ → Bool
is_stale inet_aton rec ip port =
    not (server_ip_exists inet_aton ip rec.ipv4_ucast_server && (port == rec.udp_dport))
    && (port == rec.udp_dport)

-- The interface is not freed: it has a gateway, no servers at all, or a server that stays.
abbrev pub Survives : (Text → Option ℕ) → BcastForwarderRow → ℕ → IntfNode → Tables → Type 0
Survives inet_aton rec np n t =
    (0 < n.bootp_gw)
    ⊎ ((n.addr_count ≡ 0)
        ⊎ ((i : ℕ) × (u : ℕ) × (0 < serves t np i u) × (is_stale inet_aton rec i u ≡ false)))

survivor :
    (inet_aton : Text → Option ℕ) (rec : BcastForwarderRow) (np : ℕ) (n : IntfNode) (t : Tables)
    (c : Cleared (is_stale inet_aton rec) np n t)
    → Survives inet_aton rec np n t
    → (n' : IntfNode) × (cell np c.result.nodes ≡ some n') × (n'.addr_count ≤ n.addr_count)
survivor inet_aton rec np n t c h = elim (Option-cases (cell np c.result.nodes)) [
  | inl gone ↦ absurd (impossible h gone (subst (NodeLeft (length c.ks) n) gone c.node))
  | inr (m, e) ↦
      let (size, gw, more) = subst (NodeLeft (length c.ks) n) e c.node in (m, e, omega arith)
]
  where
    impossible :
        Survives inet_aton rec np n t
        → cell np c.result.nodes ≡ none
        → NodeLeft (length c.ks) n none
        → ⊥
    impossible (inl gateway) gone (all, empty, some_removed) = omega arith
    impossible (inr (inl no_server)) gone (all, empty, some_removed) = omega arith
    impossible (inr (inr (i, u, held, stays))) gone left =
        let l = c.removed.servers np i u in
        let still : 0 < serves c.result np i u = ground arith in
        let (m, e) = serves-cell c.result np i u still in cc

entered :
    (inet_aton : Text → Option ℕ) (alloc : Allocator) (rec : BcastForwarderRow) (name : Text)
    (np : ℕ) (t : Tables)
    → rec.src_port ≡ some name
    → rec.dest_vrf ≡ true
    → find_name name t.names ≡ some np
    → udp_bcast_forwarder_config_change inet_aton alloc rec t
      ≡ bcast_change_node inet_aton alloc rec (some np) t
unfolding udp_bcast_forwarder_config_change bcast_change_port node_or_new
entered inet_aton alloc rec name np t port vrf known =
    ap (λ o. bcast_change_port inet_aton alloc rec o rec.dest_vrf t) port
    ∙ ap (λ b. bcast_change_port inet_aton alloc rec (some name) b t) vrf
    ∙ rw known refl

-- The steps of the handler, one after the other.
steps :
    (inet_aton : Text → Option ℕ) (alloc : Allocator) (rec : BcastForwarderRow) (np : ℕ)
    (n : IntfNode) (t t₂ : Tables) (fresh : List (ℕ × ℕ))
    → cell np t.nodes ≡ some n
    → (c : Cleared (is_stale inet_aton rec) np n t)
    → new_servers inet_aton alloc
        (λ new ip p. (ip == new) && (p == rec.udp_dport))
        (rec.udp_dport % 2 ^ 16)
        np
        rec.ipv4_ucast_server
        c.result
      ≡ some (fresh, c.result)
    → local_array fresh ≡ some fresh
    → store_servers alloc np fresh c.result ≡ some (tt, t₂)
    → bcast_change_node inet_aton alloc rec (some np) t ≡ some (tt, t₂)
unfolding bcast_change_node update_servers load_node
steps inet_aton alloc rec np n t t₂ fresh here c found local stored =
    rw (here, c.collects, c.local, map-keys c.ks, c.removes, found, local, stored) refl

-- The count of a server behind the two loops: `a` before, `b` between them, `c` at the end, and `d`
-- and `e` the first two for the row's own interface and port.
updated-counts :
    (at row_port stale : Bool) (a b c d e m k : ℕ)
    → b + (if at then (if stale then d else 0) else 0) ≡ a
    → c ≡ b + (if at then k else 0)
    → k ≡ (if row_port && (e == 0) then m else 0)
    → stale ≡ ((m == 0) && row_port)
    → (at ≡ true → d ≡ a)
    → (at && row_port ≡ true → e ≡ b)
    → c ≡ (if at && row_port then updated d m else a)
updated-counts true true stale a b c d e m k first second fresh test same same₁ =
    let da = same refl in let eb = same₁ refl in ground arith
updated-counts true false stale a b c d e m k first second fresh test same same₁ = ground arith
updated-counts false row_port stale a b c d e m k first second fresh test same same₁ = ground arith

-- Of a row with a VRF and a port below 2^16, whose interface is known and allocated: in valid tables
-- with no server of address 0, with a sound heap that does not run out, fewer than 16 servers on the
-- interface, in the row, and at most 16 in both, room for 16 more in every reference count, and an
-- interface that is not freed on the way, the handler returns with valid tables. Of each server of
-- the row's port the interface has then what it had if the row names it, as many as the row names if
-- it had none, and none if the row does not name it. Other ports and other interfaces are as they
-- were.
pub udp_bcast_forwarder_config_change-updates :
    (inet_aton : Text → Option ℕ) (alloc : Allocator) (rec : BcastForwarderRow) (name : Text)
    (np : ℕ) (n : IntfNode) (t : Tables)
    → IsSound alloc
    → IsPlentiful alloc
    → rec.src_port ≡ some name
    → rec.dest_vrf ≡ true
    → rec.udp_dport < 65536
    → find_name name t.names ≡ some np
    → cell np t.nodes ≡ some n
    → IsValid t
    → NoZero t
    → n.addr_count < max_servers
    → length rec.ipv4_ucast_server < max_servers
    → n.addr_count + length rec.ipv4_ucast_server ≤ max_servers
    → ((a : ℕ) → ref_count_of (cell a t.servers) + max_servers < 65536)
    → Survives inet_aton rec np n t
    → (t' : Tables) × (udp_bcast_forwarder_config_change inet_aton alloc rec t ≡ some (tt, t'))
      × IsValid t'
      × ((q i u : ℕ)
          → serves t' q i u ≡ (
              if (np == q) && (u == rec.udp_dport)
              then updated (serves t np i u) (times inet_aton i rec.ipv4_ucast_server)
              else serves t q i u))
udp_bcast_forwarder_config_change-updates inet_aton alloc rec name np n t sound rich port vrf small
      known here v nz lt few fits room survives =
    let c = cleared (is_stale inet_aton rec) np n t v nz here lt in
    let (n₁, e₁, size) = survivor inet_aton rec np n t c survives in
    let (fresh, r, f) =
      new_servers_lem inet_aton alloc (rec.udp_dport % 2 ^ 16) rec.udp_dport np n₁ c.result
        c.removed.valid e₁ rec.ipv4_ucast_server in
    let local = local_array_lem fresh (omega (arith, f.bound)) f.nonzero in
    let (t₂, r₂, v₂, added) =
      store_servers_lem alloc np fresh n₁ c.result sound rich c.removed.valid e₁
        (omega (arith, f.bound)) (λ a. omega (arith, f.bound, c.removed.fewer a, room a)) in
    (
      t₂,
      entered inet_aton alloc rec name np t port vrf known
          ∙ steps inet_aton alloc rec np n t t₂ fresh here c r local r₂,
      v₂,
      λ q i u.
          updated-counts (np == q) (u == rec.udp_dport) (is_stale inet_aton rec i u)
            (serves t q i u) (serves c.result q i u) (serves t₂ q i u) (serves t np i u)
            (serves c.result np i rec.udp_dport) (times inet_aton i rec.ipv4_ucast_server)
            (key_count i u fresh) (c.removed.servers q i u) (added q i u)
            (let key = f.keys i u in
              let narrow : rec.udp_dport % 2 ^ 16 ≡ rec.udp_dport = omega arith in ground arith)
            (let ex = server_ip_exists-times inet_aton i rec.ipv4_ucast_server in ground arith)
            (λ e. let same : np ≡ q = ground arith in ap (λ x. serves t x i u) same)
            (λ e.
              let same : np ≡ q = ground arith in
              let same_port : rec.udp_dport ≡ u = ground arith in
              ap (λ x. serves c.result x i rec.udp_dport) same
              ∙ ap (serves c.result q i) same_port),
    )
