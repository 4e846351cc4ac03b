-- ===== src/Rows/Storing.antt =====
-- The loop that finds a row's new servers and the loop that stores them.
use ops_ipapps.Base.{
  ℕ, ◌+◌, ◌<◌, ◌≤◌, ◌≡◌, ◌≢◌, refl, ◌∙◌, sym, ap, subst, Bool, true, false, ◌&&◌, not, Option, none,
  some, List, [], ◌∷◌, ◌==◌, if◌then◌else◌, length, arith, Option-cases, inl, inr, Text,
}
use ops_ipapps.Tables.{ServerEntry, IntfNode, Tables, Allocator, max_servers, load_node}
use ops_ipapps.Tables.Heap.{Cells, cell}
use ops_ipapps.Tables.Arrays.{count}
use ops_ipapps.Tables.Valid.{live, refs-le, ref_count_of, IsValid}
use ops_ipapps.Tables.Entries.{IsSound}
use ops_ipapps.Tables.View.{live-cell}
use ops_ipapps.Tables.Tally.{sum_over, hit, live_of, serves, is_at_self}
use ops_ipapps.Tables.Appended.{Stores, Reason}
use ops_ipapps.Tables.RoundTrip.{Stores-serves}
use ops_ipapps.Tables.StoreAddress.{Refused, store_address-Stores}
use ops_ipapps.Rows.{usable, is_ip, server_ip_exists}
use ops_ipapps.Rows.Change.{entry_found, any_entry, new_server_round, new_servers, store_servers}
use ops_ipapps.Rows.Removal.{key_count}

-- The C library's heap does not run out.
pub record IsPlentiful (alloc : Allocator) : Type 0 where
  pub servers : (used : List ℕ) → alloc.malloc used ≢ none
  pub arrays : (t : Tables) → alloc.malloc_array t ≢ none

rich-stores :
    (alloc : Allocator) (n : IntfNode) (t : Tables) (b : Bool)
    → IsPlentiful alloc
    → n.addr_count < max_servers
    → Reason (Refused alloc n t) b
    → b ≡ true
rich-stores alloc n t true rich lt why = refl
rich-stores alloc n t false rich lt (inl full) = absurd (omega arith)
rich-stores alloc n t false rich lt (inr (inl e)) = absurd (rich.servers _ e)
rich-stores alloc n t false rich lt (inr (inr e)) = absurd (rich.arrays t e)

pub store_servers_lem :
    (alloc : Allocator) (np : ℕ) (ks : List (ℕ × ℕ)) (n : IntfNode) (t : Tables)
    → IsSound alloc
    → IsPlentiful alloc
    → IsValid t
    → cell np t.nodes ≡ some n
    → n.addr_count + length ks ≤ max_servers
    → ((a : ℕ) → ref_count_of (cell a t.servers) + length ks < 65536)
    → (t' : Tables) × (store_servers alloc np ks t ≡ some (tt, t'))
      × IsValid t'
      × ((q i u : ℕ) → serves t' q i u ≡ serves t q i u + (if np == q then key_count i u ks else 0))
unfolding store_servers
store_servers_lem alloc np [] n t sound rich v here fits room = (t, refl, v, λ q i u. ground arith)
store_servers_lem alloc np ((ip, port) ∷ ks) n t sound rich v here fits room =
    let ((b, t₁), r, s) =
      store_address-Stores alloc np ip port n t sound v (λ a. omega (arith, room a)) here in
    let stored = rich-stores alloc n t b rich (omega arith) s.reason in
    let s₁ = subst (λ b. Stores (Refused alloc n t) np ip port n t (b, t₁)) stored s in
    let (n₁, e₁, size) = s₁.node in
    let (t₂, r₂, v₂, added) =
      store_servers_lem alloc np ks n₁ t₁ sound rich s₁.valid e₁ (omega arith)
        (λ a. omega (arith, room a, s₁.grows a)) in
    (
      t₂,
      rw (r, r₂) refl,
      v₂,
      λ q i u.
          let first = Stores-serves (Refused alloc n t) np ip port n t t₁ here s₁ q i u in
          let later = added q i u in ground arith,
    )

-- How often the row has an address.
abbrev pub times : (Text → Option ℕ) → ℕ → List Text → ℕ
times inet_aton i [] = 0
times inet_aton i (s ∷ ss) =
    (if is_ip i (usable (inet_aton s)) then 1 else 0) + times inet_aton i ss

pub server_ip_exists-times :
    (inet_aton : Text → Option ℕ) (i : ℕ) (ss : List Text)
    → server_ip_exists inet_aton i ss ≡ not (times inet_aton i ss == 0)
unfolding server_ip_exists
server_ip_exists-times inet_aton i [] = refl
server_ip_exists-times inet_aton i (s ∷ ss) = ground (arith, server_ip_exists-times inet_aton i ss)

any_entry_lem :
    (i u : ℕ) (cs : Cells ServerEntry) (ps : List ℕ)
    → ((a : ℕ) → 0 < count a ps → (s : ServerEntry) × (cell a cs ≡ some s))
    → any_entry (λ ip port. (ip == i) && (port == u)) cs ps
      ≡ some (not (sum_over (λ a. hit (cell a cs) i u) ps == 0))
unfolding any_entry entry_found
any_entry_lem i u cs [] h = refl
any_entry_lem i u cs (p ∷ ps) h =
    let (s, e) = h p (omega (arith, is_at_self p)) in
    let rest = any_entry_lem i u cs ps (λ a k. h a (omega arith)) in rw (e, rest) (ground arith)

usable-ne-zero : (ip : ℕ) (o : Option ℕ) → usable o ≡ some ip → ip ≢ 0
usable-ne-zero ip none e z = cc
usable-ne-zero ip (some k) e z = ground arith

-- What the search among the interface's servers finds for each address of the row.
pub record Fresh (inet_aton : Text → Option ℕ) (port dport np : ℕ) (t : Tables) (ss : List Text)
    (ks : List (ℕ × ℕ)) : Type 0 where
  pub keys :
      (i u : ℕ)
      → key_count i u ks
        ≡ (if (port == u) && (serves t np i dport == 0) then times inet_aton i ss else 0)
  pub bound : length ks ≤ length ss
  pub nonzero : (u : ℕ) → key_count 0 u ks ≡ 0

module _ (inet_aton : Text → Option ℕ) (alloc : Allocator) (port dport np : ℕ) (n : IntfNode)
    (t : Tables) (v : IsValid t) (here : cell np t.nodes ≡ some n) where
  present :
      (i : ℕ)
      → any_entry (λ ip p. (ip == i) && (p == dport)) t.servers (live n)
        ≡ some (not (serves t np i dport == 0))
  unfolding serves
  present i =
      any_entry_lem i dport t.servers (live n)
        (λ a k. live-cell t a v (omega (arith, refs-le a np n t.nodes here)))
      ∙ ap (λ o. some (not (sum_over (λ a. hit (cell a t.servers) i dport) (live_of o) == 0)))
          (sym here)

  pub new_servers_lem :
      (ss : List Text)
      → (ks : List (ℕ × ℕ)) × (new_servers inet_aton alloc
            (λ new ip p. (ip == new) && (p == dport))
            port
            np
            ss
            t
          ≡ some (ks, t))
        × Fresh inet_aton port dport np t ss ks
  unfolding new_servers new_server_round load_node
  new_servers_lem [] =
      ([], refl, record { keys = λ i u. ground arith; bound = omega arith; nonzero = λ u. refl })
  new_servers_lem (s ∷ ss) =
      let (ks, r, f) = new_servers_lem ss in
      elim (Option-cases (usable (inet_aton s))) [
        | inl e ↦ (
          ks,
          rw (r, e) refl,
          record {
            keys = λ i u. rw e (f.keys i u ∙ ground arith);
            bound = omega (arith, f.bound);
            nonzero = f.nonzero;
          },
        )
        | inr (ip, e) ↦ (
          if not (serves t np ip dport == 0) then ks else (ip, port) ∷ ks,
          rw (r, e, here, present ip) refl,
          record {
            keys = λ i u. rw e (let k = f.keys i u in ground arith);
            bound = let b = f.bound in ground arith;
            nonzero = λ u.
                let ne = usable-ne-zero ip (inet_aton s) e in let k = f.nonzero u in ground arith;
          },
        )
      ]
