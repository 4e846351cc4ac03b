-- ===== src/Ifaddrs.antt =====
-- The interface lookups of relay/udpfwd/src/udpfwd_util.c. What getifaddrs and if_nameindex report
-- enters as values: the kernel's lists at the time of the call, or `none` for a failed call.
pub mod Tests
pub mod Laws
use ops_ipapps.Base.{
  ℕ, ◌^◌, ◌-◌, Bool, true, false, Option, none, some, List, [], ◌∷◌, ltb, ◌==◌, if◌then◌else◌, Text,
  strncmp_eq,
}

pub data SockAddr : Type 0 where
  no_addr : SockAddr
  inet : ℕ → SockAddr
  packet : List ℕ → SockAddr
  other_family : SockAddr

pub record Ifaddr : Type 0 where
  pub ifa_name : Text
  pub ifa_addr : SockAddr

-- What the kernel reports, the interface's name for an index included.
pub record Host : Type 0 where
  pub ifaddrs : Option (List Ifaddr)
  pub nameindex : Option (List (ℕ × Text))
  pub indextoname : ℕ → Option Text

abbrev pub if_namesize : ℕ
if_namesize = 16

-- uint32_t -1, which stands for "no interface".
abbrev pub no_index : ℕ
no_index = 2 ^ 32 - 1

abbrev pub max_uint32 : ℕ
max_uint32 = 2 ^ 32 - 1

index_of_name : List (ℕ × Text) → Text → Option ℕ
index_of_name [] name = none
index_of_name ((index, n) ∷ rest) name =
    if strncmp_eq n name if_namesize then some index else index_of_name rest name

-- An address that matches under a name that if_nameindex does not list is passed over.
or_else : Option ℕ → ℕ → ℕ
or_else none rest = rest
or_else (some index) rest = index

if_index_loop : List (ℕ × Text) → List Ifaddr → ℕ → ℕ
unfolding index_of_name or_else
if_index_loop names [] ip = no_index
if_index_loop names (i ∷ rest) ip =
    let later = if_index_loop names rest ip in
    elim (i.ifa_addr) [
      | inet a ↦ if a == ip then or_else (index_of_name names i.ifa_name) later else later
      | _ ↦ later
    ]

unfoldable pub get_if_index_from_ip_address : Host → ℕ → ℕ
unfolding if_index_loop
get_if_index_from_ip_address h ip = elim (h.nameindex) [
  | none ↦ no_index
  | some names ↦ elim (h.ifaddrs) [ none ↦ no_index | some l ↦ if_index_loop names l ip ]
]

mac_loop : Text → List Ifaddr → List ℕ
mac_loop name [] = []
mac_loop name (i ∷ rest) =
    let later = mac_loop name rest in
    elim (i.ifa_addr) [
      | packet a ↦ if strncmp_eq name i.ifa_name if_namesize then a else later
      | _ ↦ later
    ]

-- The bytes that the function writes at `mac`: as many as the address has, or none.
unfoldable pub get_mac_from_ifname : Host → Text → List ℕ
unfolding mac_loop
get_mac_from_ifname h name = elim (h.ifaddrs) [ none ↦ [] | some l ↦ mac_loop name l ]

-- The macro GET_NEXT_IP_ON_INTERFACE: the loop body runs for an entry with an IPv4 address under
-- the interface's name.
ip_on_interface : Text → Ifaddr → Option ℕ
ip_on_interface name i = elim (i.ifa_addr) [
  | inet ip ↦ if strncmp_eq name i.ifa_name if_namesize then some ip else none
  | _ ↦ none
]

lowest_step : ℕ → Option ℕ → ℕ
lowest_step lowest none = lowest
lowest_step lowest (some ip) = if ltb ip lowest then ip else lowest

lowest_loop : Text → List Ifaddr → ℕ → ℕ
unfolding ip_on_interface lowest_step
lowest_loop name [] lowest = lowest
lowest_loop name (i ∷ rest) lowest =
    lowest_loop name rest (lowest_step lowest (ip_on_interface name i))

lowest_in : Option (List Ifaddr) → Text → ℕ
unfolding lowest_loop
lowest_in none name = 0
lowest_in (some l) name =
    let lowest = lowest_loop name l max_uint32 in if lowest == max_uint32 then 0 else lowest

unfoldable pub get_lowest_ip_on_interface : Host → Text → ℕ
unfolding lowest_in
get_lowest_ip_on_interface h name = lowest_in h.ifaddrs name

exists_step : ℕ → Option ℕ → Bool → Bool
exists_step ip none later = later
exists_step ip (some a) later = if a == ip then true else later

exists_loop : Text → List Ifaddr → ℕ → Bool
unfolding ip_on_interface exists_step
exists_loop name [] ip = false
exists_loop name (i ∷ rest) ip = exists_step ip (ip_on_interface name i) (exists_loop name rest ip)

exists_in : Option (List Ifaddr) → Text → ℕ → Bool
unfolding exists_loop
exists_in none name ip = false
exists_in (some l) name ip = exists_loop name l ip

pub ip_exists_on_interface : Host → Text → ℕ → Bool
unfolding exists_in
ip_exists_on_interface h name ip = exists_in h.ifaddrs name ip
