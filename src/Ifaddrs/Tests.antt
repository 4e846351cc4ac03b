-- ===== src/Ifaddrs/Tests.antt =====
-- The interface lookups on a host with two interfaces.
use ops_ipapps.Base.{◌≡◌, ◌≤◌, refl, true, none, some, List, [], ◌∷◌, arith, Text}
use ops_ipapps.Ifaddrs.{
  Ifaddr, Host, inet, packet, get_lowest_ip_on_interface, ip_exists_on_interface,
}
use ops_ipapps.Ifaddrs.Laws.{Gives, here, there, get_lowest_ip_on_interface_least}

abbrev eth : Text
eth = b'e' ∷ b't' ∷ b'h' ∷ []

abbrev lo : Text
lo = b'l' ∷ b'o' ∷ []

abbrev addresses : List Ifaddr
addresses =
    record { ifa_name = lo; ifa_addr = inet 5 }
    ∷ record { ifa_name = eth; ifa_addr = packet (1 ∷ 2 ∷ 3 ∷ 4 ∷ 5 ∷ 6 ∷ []) }
    ∷ record { ifa_name = eth; ifa_addr = inet 30 }
    ∷ record { ifa_name = eth; ifa_addr = inet 20 }
    ∷ []

abbrev host : Host
host = record { ifaddrs = some addresses; nameindex = none; indextoname = λ i. none }

eth_has_30 : Gives eth 30 addresses
eth_has_30 = there (there (here refl refl))

get_lowest_ip_on_interface_least_example :
    Gives eth (get_lowest_ip_on_interface host eth) addresses
    × (get_lowest_ip_on_interface host eth ≤ 30)
get_lowest_ip_on_interface_least_example =
    get_lowest_ip_on_interface_least host eth addresses 30 refl eth_has_30 (omega arith)

exists_on_eth : ip_exists_on_interface host eth 20 ≡ true
unfolding ip_exists_on_interface
exists_on_eth = refl
