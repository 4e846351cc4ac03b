-- ===== src/Rows/Freed.antt =====
-- A change of a row that replaces every server of an interface: the interface node is freed with the
-- last of the old ones, and then used for the new ones.
use ops_ipapps.Base.{
  ℕ, ◌%◌, ◌^◌, ◌<◌, ◌≡◌, refl, ap, subst, Bool, true, false, ◌&&◌, ◌||◌, not, Option, none, some,
  List, [], ◌∷◌, ◌==◌, length, map, arith, Bool-cases, Option-cases, inl, inr, Text,
}
use ops_ipapps.Tables.{IntfNode, Tables, Allocator, max_servers, load_node, find_name}
use ops_ipapps.Tables.Heap.{cell}
use ops_ipapps.Tables.Arrays.{count}
use ops_ipapps.Tables.Valid.{live, refs-le, IsValid, AllShaped-cell, length-live}
use ops_ipapps.Tables.View.{live-cell}
use ops_ipapps.Tables.Tally.{sum_over, hit, live_of, serves, sum_over-pos, is_at_self}
use ops_ipapps.Rows.{BcastForwarderRow, usable, server_ip_exists}
use ops_ipapps.Rows.Change.{
  new_server_round, new_servers, update_servers, bcast_change_node, bcast_change_port, node_or_new,
  udp_bcast_forwarder_config_change,
}
use ops_ipapps.Rows.Removal.{NodeLeft, Cleared, cleared}
use ops_ipapps.Rows.Deletion.{NoZero}

abbrev pub is_usable : Option ℕ → Bool
is_usable none = false
is_usable (some ip) = true

abbrev pub any_usable : (Text → Option ℕ) → List Text → Bool
any_usable inet_aton [] = false
any_usable inet_aton (s ∷ ss) = is_usable (usable (inet_aton s)) || any_usable inet_aton ss

-- An interface with a pointer has a server.
some_server :
    (t : Tables) (np : ℕ) (n : IntfNode)
    → IsValid t
    → cell np t.nodes ≡ some n
    → 0 < n.addr_count
    → (i : ℕ) × (u : ℕ) × (0 < serves t np i u)
unfolding serves
some_server t np n v here pos =
    first_of (live n) refl
      (omega (arith, length-live n (AllShaped-cell np n t.nodes v.shaped here)))
  where
    first_of :
        (ps : List ℕ)
        → live n ≡ ps
        → 0 < length ps
        → (i : ℕ) × (u : ℕ) × (0
            < sum_over (λ a. hit (cell a t.servers) i u) (live_of (cell np t.nodes)))
    first_of [] e len = absurd (omega arith)
    first_of (p ∷ ps) e len =
        let in_list : 0 < count p (live n) = omega (arith, ap (count p) e, is_at_self p) in
        let (s, entry) = live-cell t p v (omega (arith, refs-le p np n t.nodes here)) in
        let one : hit (cell p t.servers) s.ip_address s.udp_port ≡ 1 = ground arith in
        (
          s.ip_address,
          s.udp_port,
          omega (
            arith,
            one,
            sum_over-pos (λ a. hit (cell a t.servers) s.ip_address s.udp_port) p (live n) in_list,
            ap (λ o. sum_over (λ a. hit (cell a t.servers) s.ip_address s.udp_port) (live_of o))
                here,
          ),
        )

module _ (inet_aton : Text → Option ℕ) (alloc : Allocator) (same : ℕ → ℕ → ℕ → Bool) (port np : ℕ)
    (t : Tables) (gone : cell np t.nodes ≡ none) where
  new_servers-unused :
      (servers : List Text)
      → any_usable inet_aton servers ≡ false
      → new_servers inet_aton alloc same port np servers t ≡ some ([], t)
  unfolding new_servers new_server_round
  new_servers-unused [] none_usable = refl
  new_servers-unused (s ∷ ss) none_usable =
      rw (new_servers-unused ss (ground arith)) (at (usable (inet_aton s)) (ground arith))
    where
      at :
          (o : Option ℕ)
          → is_usable o ≡ false
          → new_server_round inet_aton alloc same port np o [] t ≡ some ([], t)
      at none e = refl
      at (some ip) e = cc

  -- A usable address is looked up in the node that is gone.
  new_servers-faults :
      (servers : List Text)
      → any_usable inet_aton servers ≡ true
      → new_servers inet_aton alloc same port np servers t ≡ none
  unfolding new_servers new_server_round load_node
  new_servers-faults [] any = cc
  new_servers-faults (s ∷ ss) any = elim (Bool-cases (any_usable inet_aton ss)) [
    | inl later ↦ rw (new_servers-faults ss later) refl
    | inr last ↦ rw (new_servers-unused ss last) (at (usable (inet_aton s)) (ground arith))
  ]
    where
      at :
          (o : Option ℕ)
          → is_usable o ≡ true
          → new_server_round inet_aton alloc same port np o [] t ≡ none
      at none e = cc
      at (some ip) e = rw gone refl

-- Without a gateway, an interface whose servers are all removed is gone.
all_gone :
    (test : ℕ → ℕ → Bool) (np : ℕ) (n : IntfNode) (t : Tables) (c : Cleared test np n t)
    → n.bootp_gw ≡ 0
    → 0 < n.addr_count
    → ((i u : ℕ) → 0 < serves t np i u → test i u ≡ true)
    → cell np c.result.nodes ≡ none
all_gone test np n t c gateway pos all = elim (Option-cases (cell np c.result.nodes)) [
  | inl gone ↦ gone
  | inr (m, e) ↦
      let (size, gw, more) = subst (NodeLeft (length c.ks) n) e c.node in
      elim (Bool-cases (m.addr_count == 0)) [
        | inl empty ↦ let every : length c.ks ≡ n.addr_count = ground arith in absurd (ground arith)
        | inr still ↦
            let (i, u, held) = some_server c.result np m c.removed.valid e (ground arith) in
            absurd (let l = c.removed.servers np i u in let a = all i u in ground arith)
      ]
]

pub map-keys : (ks : List (ℕ × ℕ)) → map (λ k. k) ks ≡ ks
map-keys [] = refl
map-keys (k ∷ ks) = ap (λ l. k ∷ l) (map-keys ks)

-- Of a row with a VRF, whose interface is known and allocated: in valid tables with no server of
-- address 0, if the interface has from 1 to 15 servers and no bootp gateway, each of its servers has
-- the row's port and an address that the row no longer has, and the row has a usable address, then
-- the handler uses the node that it has freed, whatever the allocator does.
pub udp_bcast_forwarder_config_change-faults :
    (inet_aton : Text → Option ℕ) (alloc : Allocator) (rec : BcastForwarderRow) (name : Text)
    (np : ℕ) (n : IntfNode) (t : Tables)
    → rec.src_port ≡ some name
    → rec.dest_vrf ≡ true
    → find_name name t.names ≡ some np
    → cell np t.nodes ≡ some n
    → IsValid t
    → NoZero t
    → 0 < n.addr_count
    → n.addr_count < max_servers
    → n.bootp_gw ≡ 0
    → ((i u : ℕ)
        → 0 < serves t np i u
        → (u ≡ rec.udp_dport) × (server_ip_exists inet_aton i rec.ipv4_ucast_server ≡ false))
    → any_usable inet_aton rec.ipv4_ucast_server ≡ true
    → udp_bcast_forwarder_config_change inet_aton alloc rec t ≡ none
unfolding udp_bcast_forwarder_config_change bcast_change_port bcast_change_node node_or_new
    update_servers load_node
udp_bcast_forwarder_config_change-faults inet_aton alloc rec name np n t port vrf known here v nz
      pos lt gateway replaced usable_one =
    let test : ℕ → ℕ → Bool = λ ip port.
      not (server_ip_exists inet_aton ip rec.ipv4_ucast_server && (port == rec.udp_dport))
      && (port == rec.udp_dport) in
    let c = cleared test np n t v nz here lt in
    let gone =
      all_gone test np n t c gateway pos
        (λ i u held. let (at, away) = replaced i u held in ground arith) in
    let faults =
      new_servers-faults inet_aton alloc (λ new ip port. (ip == new) && (port == rec.udp_dport))
        (rec.udp_dport % 2 ^ 16) np c.result gone rec.ipv4_ucast_server usable_one in
    rw (port, vrf, known, here, c.collects, c.local, map-keys c.ks, c.removes, faults) refl
