-- ===== src/Ifaddrs/Laws.antt =====
-- The lookups agree with the list that getifaddrs reports.
use ops_ipapps.Base.{
  ℕ, ◌≤◌, ◌<◌, ◌≡◌, ◌⊎◌, ◌↔◌, ◌∙◌, sym, subst, Bool-cases, inl, inr, refl, Bool, true, false,
  Option, none, some, List, [], ◌∷◌, ltb, ◌==◌, arith, Text, strncmp_eq,
}
use ops_ipapps.Ifaddrs.{
  inet, Ifaddr, Host, if_namesize, max_uint32, ip_on_interface, lowest_step, lowest_loop, lowest_in,
  exists_in, get_lowest_ip_on_interface, exists_step, exists_loop, ip_exists_on_interface,
}

-- The list gives this IPv4 address to the interface: an entry holds it under the name.
pub data Gives (name : Text) (ip : ℕ) : List Ifaddr → Type 0 where
  here :
      {i : Ifaddr} {l : List Ifaddr}
      → i.ifa_addr ≡ inet ip
      → strncmp_eq name i.ifa_name if_namesize ≡ true
      → Gives name ip (i ∷ l)
  there : {i : Ifaddr} {l : List Ifaddr} → Gives name ip l → Gives name ip (i ∷ l)

step-of-entry :
    (name : Text) (i : Ifaddr) (ip : ℕ)
    → i.ifa_addr ≡ inet ip
    → strncmp_eq name i.ifa_name if_namesize ≡ true
    → ip_on_interface name i ≡ some ip
unfolding ip_on_interface
step-of-entry name i ip e n = ground arith

entry-of-step :
    (name : Text) (i : Ifaddr) (ip : ℕ)
    → ip_on_interface name i ≡ some ip
    → (i.ifa_addr ≡ inet ip) × (strncmp_eq name i.ifa_name if_namesize ≡ true)
unfolding ip_on_interface
entry-of-step name i ip e = ground arith

lowest_step-le : (least : ℕ) (o : Option ℕ) → lowest_step least o ≤ least
unfolding lowest_step
lowest_step-le least none = omega arith
lowest_step-le least (some ip) = ground arith

lowest_step-some : (least ip : ℕ) → lowest_step least (some ip) ≤ ip
unfolding lowest_step
lowest_step-some least ip = ground arith

lowest_loop-le : (name : Text) (l : List Ifaddr) (least : ℕ) → lowest_loop name l least ≤ least
unfolding lowest_loop
lowest_loop-le name [] least = omega arith
lowest_loop-le name (i ∷ l) least = omega (
  arith,
  lowest_loop-le name l (lowest_step least (ip_on_interface name i)),
  lowest_step-le least (ip_on_interface name i),
)

lowest_loop_least :
    (name : Text) (ip least : ℕ) {l : List Ifaddr} → Gives name ip l → lowest_loop name l least ≤ ip
unfolding lowest_loop
lowest_loop_least name ip least (here {i} {l} e n) =
    rw (step-of-entry name i ip e n) (
      omega (arith, lowest_loop-le name l (lowest_step least (some ip)), lowest_step-some least ip))
lowest_loop_least name ip least (there {i} {l} g) =
    lowest_loop_least name ip (lowest_step least (ip_on_interface name i)) g

lowest_step_cases :
    (least : ℕ) (o : Option ℕ)
    → (lowest_step least o ≡ least) ⊎ ((ip : ℕ) × (o ≡ some ip) × (lowest_step least o ≡ ip))
unfolding lowest_step
lowest_step_cases least none = inl refl
lowest_step_cases least (some ip) = elim (Bool-cases (ltb ip least)) [
  | inl lt ↦ inr (ip, refl, rw lt)
  | inr ge ↦ inl (rw ge)
]

-- The loop's result is where it began or an address of the interface.
lowest_loop_found :
    (name : Text) (l : List Ifaddr) (least : ℕ)
    → (lowest_loop name l least ≡ least) ⊎ Gives name (lowest_loop name l least) l
unfolding lowest_loop
lowest_loop_found name [] least = inl refl
lowest_loop_found name (i ∷ l) least =
    let next = lowest_step least (ip_on_interface name i) in
    elim (lowest_loop_found name l next) [
      | inr h ↦ inr (there h)
      | inl same ↦ elim (lowest_step_cases least (ip_on_interface name i)) [
        | inl e ↦ inl (same ∙ e)
        | inr (ip, e, e') ↦
            let (held, named) = entry-of-step name i ip e in inr (here (rw (same, e') held) named)
      ]
    ]

lowest_in_least :
    (name : Text) (l : List Ifaddr) (ip : ℕ)
    → Gives name ip l
    → ip < max_uint32
    → Gives name (lowest_in (some l) name) l × (lowest_in (some l) name ≤ ip)
unfolding lowest_in
lowest_in_least name l ip gives small =
    let low = lowest_loop_least name ip max_uint32 gives in
    let differs : (lowest_loop name l max_uint32 == max_uint32) ≡ false = ground arith in
    rw differs
      (elim (lowest_loop_found name l max_uint32) [ inl e ↦ absurd (omega arith) | inr g ↦ g ], low)

-- When getifaddrs reports `l`, an address of the interface below 255.255.255.255 (as the machine
-- reads s_addr, which is not the order of IP addresses) makes the result one that the interface has,
-- and at most that address.
pub get_lowest_ip_on_interface_least :
    (h : Host) (name : Text) (l : List Ifaddr) (ip : ℕ)
    → h.ifaddrs ≡ some l
    → Gives name ip l
    → ip < max_uint32
    → Gives name (get_lowest_ip_on_interface h name) l × (get_lowest_ip_on_interface h name ≤ ip)
unfolding get_lowest_ip_on_interface
get_lowest_ip_on_interface_least h name l ip reported gives small =
    subst (λ o. Gives name (lowest_in o name) l × (lowest_in o name ≤ ip)) (sym reported)
      (lowest_in_least name l ip gives small)

exists_step_hit : (ip : ℕ) (later : Bool) → exists_step ip (some ip) later ≡ true
unfolding exists_step
exists_step_hit ip later = ground arith

exists_step_later : (ip : ℕ) (o : Option ℕ) → exists_step ip o true ≡ true
unfolding exists_step
exists_step_later ip none = refl
exists_step_later ip (some a) = ground arith

exists_loop_complete :
    (name : Text) (ip : ℕ) {l : List Ifaddr} → Gives name ip l → exists_loop name l ip ≡ true
unfolding exists_loop
exists_loop_complete name ip (here {i} {l} e n) =
    rw (step-of-entry name i ip e n) (exists_step_hit ip (exists_loop name l ip))
exists_loop_complete name ip (there {i} {l} g) =
    rw (exists_loop_complete name ip g) (exists_step_later ip (ip_on_interface name i))

exists_step_cases :
    (ip : ℕ) (o : Option ℕ) (later : Bool)
    → exists_step ip o later ≡ true
    → (o ≡ some ip) ⊎ (later ≡ true)
unfolding exists_step
exists_step_cases ip none later h = inr h
exists_step_cases ip (some a) later h = ground arith

exists_loop_sound :
    (name : Text) (ip : ℕ) (l : List Ifaddr) → exists_loop name l ip ≡ true → Gives name ip l
unfolding exists_loop
exists_loop_sound name ip [] h = cc
exists_loop_sound name ip (i ∷ l) h = elim (exists_step_cases ip _ _ h) [
  | inl e ↦ let (held, named) = entry-of-step name i ip e in here held named
  | inr later ↦ there (exists_loop_sound name ip l later)
]

-- When getifaddrs reports `l`, an address exists on an interface exactly when `l` gives it to the
-- interface.
ip_exists_on_interface_iff :
    (h : Host) (name : Text) (l : List Ifaddr) (ip : ℕ)
    → h.ifaddrs ≡ some l
    → (ip_exists_on_interface h name ip ≡ true) ↔ Gives name ip l
unfolding ip_exists_on_interface
ip_exists_on_interface_iff h name l ip reported =
    subst (λ o. (exists_in o name ip ≡ true) ↔ Gives name ip l) (sym reported)
      (exists_loop_sound name ip l, exists_loop_complete name ip)
