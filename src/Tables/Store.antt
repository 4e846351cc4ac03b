-- ===== src/Tables/Store.antt =====
-- udpfwd_store_address and what it calls: a server is shared, or created, and its pointer goes behind
-- the others of the interface.
use ops_ipapps.Base.{
  ℕ, ◌+◌, ◌%◌, Bool, true, false, not, Option, none, some, List, ◌∷◌, leb, ◌==◌, if◌then◌else◌, ◌^◌,
}
use ops_ipapps.Tables.{
  ServerEntry, IntfNode, Allocator, max_servers, Run, pure, ◌>>=◌, ◌>>◌, load_node, store_node,
  get_server_entry, addresses, new_server, set_pointer,
}
use ops_ipapps.Tables.Heap.{cell, write}

unfoldable pub insert_server : Option ℕ → ℕ → ℕ → Run (Option ℕ)
insert_server none ip port t = some (none, t)
insert_server (some p) ip port t =
    some (some p, record t { servers = (p, new_server ip port) ∷ t.servers })

module _ (a : Allocator) where
  unfoldable pub add_server_entry : ℕ → ℕ → Run (Option ℕ)
  unfolding insert_server
  add_server_entry ip port t = insert_server (a.malloc (addresses t.servers)) ip port t

  -- server->ref_count++ on a uint16_t
  unfoldable pub retain : ℕ → Option ServerEntry → Run (Option ℕ)
  retain p none t = none
  retain p (some s) t = some (
    some p,
    record t { servers = write p (record s { ref_count = (s.ref_count + 1) % 2 ^ 16 }) t.servers },
  )

  -- The entry is shared if there is one, and otherwise created.
  unfoldable pub share : ℕ → ℕ → Option ℕ → Run (Option ℕ)
  unfolding retain add_server_entry
  share ip port none t = add_server_entry ip port t
  share ip port (some p) t = retain p (cell p t.servers) t

  unfoldable pub append_pointer : ℕ → IntfNode → Option ℕ → Run Bool
  append_pointer np n none = pure false
  append_pointer np n (some p) = do
    store_node np (record n {
      server_array = set_pointer n.addr_count p n.server_array;
      addr_count = (n.addr_count + 1) % 2 ^ 8;
    })
    pure true

  unfoldable pub store_in : ℕ → ℕ → ℕ → IntfNode → Run Bool
  unfolding share append_pointer get_server_entry
  store_in np ip port n = do
    server ← λ t. share ip port (get_server_entry ip port t.servers) t
    append_pointer np n server

  -- The array is allocated when it is NULL; the node keeps it also when the server is not stored.
  unfoldable pub with_array : ℕ → ℕ → ℕ → IntfNode → Option (List ℕ) → Run Bool
  unfolding store_in
  with_array np ip port n none = do store_node np (record n { addr_count = 0 }); pure false
  with_array np ip port n (some array) = do
    let n' = record n { addr_count = 0; server_array = some array }
    store_node np n'
    store_in np ip port n'

  unfoldable pub store_by_array : ℕ → ℕ → ℕ → IntfNode → Option (List ℕ) → Run Bool
  unfolding with_array store_in
  store_by_array np ip port n (some array) t = store_in np ip port n t
  store_by_array np ip port n none t =
      if not (n.addr_count == 0)
      then some (false, t)
      else with_array np ip port n (a.malloc_array t) t

  unfoldable pub store_below_limit : ℕ → ℕ → ℕ → IntfNode → Run Bool
  unfolding store_by_array
  store_below_limit np ip port n t =
      if leb max_servers n.addr_count
      then some (false, t)
      else store_by_array np ip port n n.server_array t

  unfoldable pub store_address : ℕ → ℕ → ℕ → Run Bool
  unfolding load_node store_below_limit
  store_address np ip port = do n ← load_node np; store_below_limit np ip port n
