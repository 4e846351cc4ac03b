-- ===== src/Option82/Tests.antt =====
-- A move of an option that overlaps it.
use ops_ipapps.Base.{◌≡◌, ◌+◌, true, none, [], ◌∷◌, arith}
use ops_ipapps.Packet.{store_bytes}
use ops_ipapps.Packet.Laws.{Holds-store_bytes}
use ops_ipapps.Option82.{Scan, continue, copy_option}
use ops_ipapps.Option82.Copy.{Opt, encode, copy_option_misreads}

abbrev name : Opt
name = record { tag = 12; body = 97 ∷ 98 ∷ 99 ∷ 100 ∷ [] }

-- The loop is two bytes ahead of what it has written.
abbrev scan : Scan
scan = record {
  mem = store_bytes (λ a. 0) 302 (encode name);
  info = record { circuit_id = 0; ip_addr = 0 };
  op = 302;
  sp = 300;
  is_dhcp = true;
  end_pad = none;
  good_agent_option = true;
  max_msg_size = 0;
}

copy_option_misreads_example :
    (s' : Scan) × (copy_option scan ≡ continue s')
    × (s'.op ≡ 302 + (scan.mem 305 + 2))
    × (s'.sp ≡ 300 + (scan.mem 305 + 2))
copy_option_misreads_example =
    copy_option_misreads scan name (omega arith) (Holds-store_bytes (λ a. 0) 302 (encode name))
      (omega arith)
