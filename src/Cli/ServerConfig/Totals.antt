-- ===== src/Cli/ServerConfig/Totals.antt =====
-- Sums over the rows of a table, and the array functions of udpfwd_vty_utils.c within their bounds.
use ops_ipapps.Base.{
  ℕ, ◌+◌, ◌≤◌, ◌<◌, ◌≡◌, refl, Bool, true, false, ◌||◌, Option, none, some, List, [], ◌∷◌, ◌++◌,
  if◌then◌else◌, length, length-append, Text, arith,
}
use ops_ipapps.Relay.{same_text}
use ops_ipapps.Cli.Servers.{
  Row, named, search, size_of_int8, find_udpfwd_server_ip, max_addresses, count_reached,
  server_address_maxcount_reached, without, udpfwd_serverupdate, first_row, instead, change_row,
}

pub same_text→eq : (a b : Text) → same_text a b ≡ true → a ≡ b
same_text→eq [] [] e = refl
same_text→eq [] (y ∷ ys) e = cc
same_text→eq (x ∷ xs) [] e = cc
same_text→eq (x ∷ xs) (y ∷ ys) e = ground (arith, same_text→eq xs ys)

pub same_text_refl : (a : Text) → same_text a a ≡ true
same_text_refl [] = refl
same_text_refl (x ∷ xs) = ground (arith, same_text_refl xs)

abbrev pub contains : Text → List Text → Bool
contains text [] = false
contains text (server ∷ servers) = same_text text server || contains text servers

search_lem :
    (text : Text) (servers : List Text)
    → search text servers (length servers) ≡ some (contains text servers)
search_lem text [] = refl
search_lem text (server ∷ servers) = ground (arith, search_lem text servers)

-- Up to 127 servers the search stays in the array and finds what is there.
pub find_udpfwd_server_ip_lem :
    (text : Text) (servers : List Text)
    → length servers < 128
    → find_udpfwd_server_ip servers (length servers) text ≡ some (contains text servers)
unfolding find_udpfwd_server_ip
find_udpfwd_server_ip_lem text servers h =
    let small : size_of_int8 (length servers) ≡ length servers = ground arith in
    rw small (search_lem text servers)

length-without :
    (text : Text) (servers : List Text) → length (without text servers) ≤ length servers
length-without text [] = omega arith
length-without text (server ∷ servers) = ground (arith, length-without text servers)

pub length-without-contains :
    (text : Text) (servers : List Text)
    → contains text servers ≡ true
    → length (without text servers) < length servers
length-without-contains text [] c = cc
length-without-contains text (server ∷ servers) c =
    ground (arith, length-without text servers, length-without-contains text servers)

-- Both arrays fit in what xmalloc gave for them.
pub udpfwd_serverupdate-add :
    (text : Text) (servers : List Text)
    → udpfwd_serverupdate servers true text ≡ some (servers ++ text ∷ [])
unfolding udpfwd_serverupdate
udpfwd_serverupdate-add text servers = ground (arith, length-append servers (text ∷ []))

pub udpfwd_serverupdate-delete :
    (text : Text) (servers : List Text)
    → contains text servers ≡ true
    → udpfwd_serverupdate servers false text ≡ some (without text servers)
unfolding udpfwd_serverupdate
udpfwd_serverupdate-delete text [] c = cc
udpfwd_serverupdate-delete text (server ∷ servers) c =
    let fewer = length-without-contains text (server ∷ servers) c in ground arith

module _ {E : Type 0} where
  -- The servers of a row that has the port's name, and of all of them.
  abbrev pub weight : Text → Row E → ℕ
  weight name row = if named name row.port then length row.servers else 0

  abbrev pub total : Text → List (Row E) → ℕ
  total name [] = 0
  total name (row ∷ rows) = weight name row + total name rows

  abbrev pub weight_of : Text → Option (Row E) → ℕ
  weight_of name none = 0
  weight_of name (some row) = weight name row

  pub total-append :
      (name : Text) (rows : List (Row E)) (row : Row E)
      → total name (rows ++ row ∷ []) ≡ total name rows + weight name row
  total-append name [] row = omega arith
  total-append name (r ∷ rows) row = omega (arith, total-append name rows row)

  total-instead :
      (name : Text) (new : Option (Row E)) (rows : List (Row E))
      → total name (instead new rows) ≡ weight_of name new + total name rows
  total-instead name none rows = omega arith
  total-instead name (some row) rows = refl

  pub total-change_row :
      (name : Text) (test : Row E → Bool) (new : Option (Row E)) (rows : List (Row E)) (row : Row E)
      → first_row test rows ≡ some row
      → total name (change_row test new rows) + weight name row
        ≡ total name rows + weight_of name new
  total-change_row name test new [] row e = cc
  total-change_row name test new (r ∷ rows) row e =
      ground (arith, total-instead name new rows, total-change_row name test new rows row)

  pub first_row-weight :
      (name : Text) (test : Row E → Bool) (rows : List (Row E)) (row : Row E)
      → first_row test rows ≡ some row
      → weight name row ≤ total name rows
  first_row-weight name test [] row e = cc
  first_row-weight name test (r ∷ rows) row e = ground (arith, first_row-weight name test rows row)

  pub first_row-test :
      (test : Row E → Bool) (rows : List (Row E)) (row : Row E)
      → first_row test rows ≡ some row
      → test row ≡ true
  first_row-test test [] row e = cc
  first_row-test test (r ∷ rows) row e = ground (arith, first_row-test test rows row)

  count_reached-total :
      (name : Text) (rows : List (Row E)) (entries : ℕ)
      → entries < max_addresses
      → count_reached name rows entries ≡ false
      → entries + total name rows < max_addresses
  count_reached-total name [] entries h e = omega arith
  count_reached-total name (row ∷ rows) entries h e = ground (
    arith,
    count_reached-total name rows entries,
    count_reached-total name rows (entries + length row.servers),
  )

  -- Below the maximum there is room for one more.
  pub server_address_maxcount_reached-total :
      (name : Text) (rows : List (Row E))
      → server_address_maxcount_reached name rows ≡ false
      → total name rows < max_addresses
  unfolding server_address_maxcount_reached
  server_address_maxcount_reached-total name rows e =
      let below = count_reached-total name rows 0 (omega arith) e in omega arith
