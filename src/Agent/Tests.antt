-- ===== src/Agent/Tests.antt =====
-- Validation of a concrete relay agent option.
use ops_ipapps.Base.{ℕ, ◌≡◌, none, some, List, [], ◌∷◌}
use ops_ipapps.Packet.{Mem, store_bytes}
use ops_ipapps.Ifaddrs.{Host, packet}
use ops_ipapps.Global.{remote_id_mac}
use ops_ipapps.Agent.{Validation, Option82Info, validate_agent_option}
use ops_ipapps.Agent.Valid.{own_sub_options, validate_agent_option_total}

abbrev mac : List ℕ
mac = 1 ∷ 2 ∷ 3 ∷ 4 ∷ 5 ∷ 6 ∷ []

abbrev host : Host
host = record {
  ifaddrs = some (record { ifa_name = b'e' ∷ []; ifa_addr = packet mac } ∷ []);
  nameindex = none;
  indextoname = λ i. none;
}

abbrev info : Option82Info
info = record { circuit_id = 0; ip_addr = 0 }

abbrev memory : Mem
memory = store_bytes (λ a. 0) 100 (own_sub_options 7 mac)

validate_agent_option_total_example :
    (r : Validation × Option82Info) × (validate_agent_option host
        (b'e' ∷ [])
        []
        memory
        100
        14
        remote_id_mac
        info
      ≡ some r)
validate_agent_option_total_example =
    validate_agent_option_total host (b'e' ∷ []) [] memory 100 14 remote_id_mac info
