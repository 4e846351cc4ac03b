-- ===== src/Cli/ServerConfig/Undone.antt =====
-- Changes of a table that are undone by another.
use ops_ipapps.Base.{◌≡◌, refl, Bool, true, false, none, some, List, [], ◌∷◌, ◌++◌, Text, arith}
use ops_ipapps.Cli.Servers.{Row, first_row, change_row, without}
use ops_ipapps.Cli.ServerConfig.Totals.{same_text_refl, contains}

pub contains-append :
    (text : Text) (servers : List Text) → contains text (servers ++ text ∷ []) ≡ true
contains-append text [] = ground (arith, same_text_refl text)
contains-append text (server ∷ servers) = ground (arith, contains-append text servers)

pub without-append :
    (text : Text) (servers : List Text)
    → contains text servers ≡ false
    → without text (servers ++ text ∷ []) ≡ servers
without-append text [] c = ground (arith, same_text_refl text)
without-append text (server ∷ servers) c = ground (arith, without-append text servers)

module _ {E : Type 0} (test : Row E → Bool) where
  pub first_row-change_row :
      (row new : Row E) (rows : List (Row E))
      → first_row test rows ≡ some row
      → test new ≡ true
      → first_row test (change_row test (some new) rows) ≡ some new
  first_row-change_row row new [] e n = cc
  first_row-change_row row new (r ∷ rows) e n = ground (arith, first_row-change_row row new rows)

  pub change_row-change_row :
      (row new : Row E) (rows : List (Row E))
      → first_row test rows ≡ some row
      → test new ≡ true
      → change_row test (some row) (change_row test (some new) rows) ≡ rows
  change_row-change_row row new [] e n = refl
  change_row-change_row row new (r ∷ rows) e n = ground (arith, change_row-change_row row new rows)

  pub first_row-append :
      (new : Row E) (rows : List (Row E))
      → first_row test rows ≡ none
      → test new ≡ true
      → first_row test (rows ++ new ∷ []) ≡ some new
  first_row-append new [] e n = ground arith
  first_row-append new (r ∷ rows) e n = ground (arith, first_row-append new rows)

  pub change_row-append :
      (new : Row E) (rows : List (Row E))
      → first_row test rows ≡ none
      → test new ≡ true
      → change_row test none (rows ++ new ∷ []) ≡ rows
  change_row-append new [] e n = ground arith
  change_row-append new (r ∷ rows) e n = ground (arith, change_row-append new rows)
