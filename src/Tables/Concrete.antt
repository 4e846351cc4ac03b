-- ===== src/Tables/Concrete.antt =====
-- A heap and tables to run the handlers on: one interface with a server of port 67 and one of 53.
use ops_ipapps.Base.{
  ℕ, suc, ◌+◌, ◌<◌, ◌≡◌, ◌≢◌, refl, subst, true, some, List, [], ◌∷◌, length, replicate, arith,
  Text,
}
use ops_ipapps.Relay.{Counters}
use ops_ipapps.Tables.{IntfNode, Tables, Allocator}
use ops_ipapps.Tables.Heap.{cell, occupied}
use ops_ipapps.Tables.Arrays.{count}
use ops_ipapps.Tables.Valid.{refs, entries, IsValid}
use ops_ipapps.Tables.Entries.{IsSound}

-- The next free address is one behind the sum of those in use.
abbrev sum : List ℕ → ℕ
sum [] = 0
sum (p ∷ ps) = p + sum ps

abbrev pub heap : Allocator
heap = record {
  malloc = λ used. some (suc (sum used));
  malloc_array = λ t. some (replicate 16 0);
  calloc_name = λ t. true;
}

count-behind : (p : ℕ) (ps : List ℕ) → sum ps < p → count p ps ≡ 0
count-behind p [] lt = refl
count-behind p (q ∷ qs) lt = ground (arith, count-behind p qs (omega arith))

pub heap-IsSound : IsSound heap
heap-IsSound = record { fresh = heap_fresh; block = heap_block }
  where
    heap_fresh :
        (used : List ℕ) (p : ℕ) → some (suc (sum used)) ≡ some p → (p ≢ 0) × (count p used ≡ 0)
    heap_fresh used p e =
        let at : suc (sum used) ≡ p = cc in
        subst (λ p. (p ≢ 0) × (count p used ≡ 0)) at
          (λ z. absurd (omega arith), count-behind (suc (sum used)) used (omega arith))

    heap_block :
        (t : Tables) (array : List ℕ) → some (replicate 16 0) ≡ some array → length array ≡ 16
    heap_block t array e =
        subst (λ a. length a ≡ 16) (let same : replicate 16 0 ≡ array = cc in same) refl

abbrev counters : Counters
counters = record {
  client_drops = 0;
  client_valids = 0;
  serv_drops = 0;
  serv_valids = 0;
  client_drops_with_option82 = 0;
  client_valids_with_option82 = 0;
  serv_drops_with_option82 = 0;
  serv_valids_with_option82 = 0;
}

abbrev pub eth : Text
eth = 101 ∷ []

abbrev pub node_with : ℕ → IntfNode
node_with gateway = record {
  port_name = eth;
  addr_count = 2;
  server_array = some (2 ∷ 3 ∷ replicate 14 0);
  bootp_gw = gateway;
  counters = counters;
}

abbrev pub tables_with : ℕ → ℕ → Tables
tables_with gateway port = record {
  servers =
      (2, record { ip_address = 10; udp_port = port; ref_count = 1 })
      ∷ (3, record { ip_address = 20; udp_port = 53; ref_count = 1 })
      ∷ [];
  nodes = (1, node_with gateway) ∷ [];
  names = (eth, 1) ∷ [];
}

pub tables_with-IsValid : (gateway port : ℕ) → IsValid (tables_with gateway port)
unfolding refs cell occupied entries
tables_with-IsValid gateway port = record {
  counted = λ a. ground arith;
  positive = (omega arith, (omega arith, tt));
  shaped = ((refl, omega arith), tt);
  distinct_servers = λ a. ground arith;
  distinct_nodes = λ a. ground arith;
  null_server = refl;
  unique = λ ip u. ground arith;
}
