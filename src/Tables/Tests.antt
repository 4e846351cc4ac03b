-- ===== src/Tables/Tests.antt =====
-- The tables on concrete values.
use ops_ipapps.Base.{true, ℕ, ◌≡◌, refl, Bool, Option, none, some, List, [], ◌∷◌, arith}
use ops_ipapps.Tables.{Tables, remove_address}
use ops_ipapps.Tables.Store.{store_address}
use ops_ipapps.Tables.Heap.{cell, write, free}
use ops_ipapps.Tables.Valid.{IsValid}
use ops_ipapps.Tables.Share.{HasRoom}
use ops_ipapps.Tables.View.{servers_at}
use ops_ipapps.Tables.Appended.{Stores}
use ops_ipapps.Tables.StoreAddress.{Refused, store_address-Stores}
use ops_ipapps.Tables.AfterRemoval.{Removes}
use ops_ipapps.Tables.RemoveAddress.{remove_address-Removes}
use ops_ipapps.Tables.Tally.{serves}
use ops_ipapps.Tables.RoundTrip.{remove_address-store_address}
use ops_ipapps.Tables.Concrete.{heap, heap-IsSound, node_with, tables_with, tables_with-IsValid}

tables-HasRoom : HasRoom (tables_with 0 67)
unfolding cell
tables-HasRoom a = ground arith

store_address-Stores_example :
    (r : Bool × Tables) × (store_address heap 1 20 67 (tables_with 0 67) ≡ some r)
    × Stores
        (Refused heap (node_with 0) (tables_with 0 67))
        1
        20
        67
        (node_with 0)
        (tables_with 0 67)
        r
unfolding cell
store_address-Stores_example =
    store_address-Stores heap 1 20 67 (node_with 0) (tables_with 0 67) heap-IsSound
      (tables_with-IsValid 0 67) tables-HasRoom refl

remove_address-Removes_example :
    (r : Bool × Tables) × (remove_address 1 10 67 (tables_with 0 67) ≡ some r)
    × Removes 1 10 67 (node_with 0) (tables_with 0 67) r
unfolding cell
remove_address-Removes_example =
    remove_address-Removes 1 10 67 (node_with 0) (tables_with 0 67) (tables_with-IsValid 0 67) refl

abbrev after_store : Option (Bool × Tables) → Option (List (Option (ℕ × ℕ)))
after_store none = none
after_store (some (b, t)) = servers_at t 1

-- A third server stands behind the two; a removed one leaves its place to the last.
stored :
    after_store (store_address heap 1 20 67 (tables_with 0 67))
    ≡ some (some (10, 67) ∷ some (20, 53) ∷ some (20, 67) ∷ [])
unfolding servers_at cell store_address write
stored = refl

removed : after_store (remove_address 1 10 67 (tables_with 0 67)) ≡ some (some (20, 53) ∷ [])
unfolding servers_at cell remove_address write free
removed = refl

abbrev tables_of : Option (Bool × Tables) → Tables
tables_of none = tables_with 0 67
tables_of (some (b, t)) = t

abbrev stored_tables : Tables
stored_tables = tables_of (store_address heap 1 20 67 (tables_with 0 67))

remove_address-store_address_example :
    (t₂ : Tables) × (remove_address 1 20 67 stored_tables ≡ some (true, t₂))
    × IsValid t₂
    × ((q i u : ℕ) → serves t₂ q i u ≡ serves (tables_with 0 67) q i u)
unfolding cell store_address write
remove_address-store_address_example =
    remove_address-store_address heap 1 20 67 (node_with 0) (tables_with 0 67) stored_tables
      heap-IsSound (tables_with-IsValid 0 67) tables-HasRoom refl refl
