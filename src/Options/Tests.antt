-- ===== src/Options/Tests.antt =====
-- Searching concrete messages for an option.
use ops_ipapps.Base.{
  ℕ, ◌≡◌, ◌↔◌, ◌<◌, refl, true, false, Option, none, some, arith, ◌==◌, if◌then◌else◌,
}
use ops_ipapps.Packet.{Mem}
use ops_ipapps.Options.{scan_opt, pickup_opt, next_option, after_overload, option_end}
use ops_ipapps.Options.Scan.{FirstOption, scan_opt-FirstOption, scan_opt_hangs}

-- A pad, a message type, and the end mark.
abbrev area : Mem
area a =
    if a == 1 then 53 else if a == 2 then 1 else if a == 3 then 1 else if a == 4 then 255 else 0

area_bytes : (a : ℕ) → area a < 256
area_bytes a = ground arith

scan_opt-FirstOption_example :
    ((p : Option ℕ × ℕ) × (scan_opt 6 false area 53 true 0 5 0 ≡ some p))
    × ((r : ℕ)
        → ((overload' : ℕ) × (scan_opt 6 false area 53 true 0 5 0 ≡ some (some r, overload')))
          ↔ FirstOption area 53 5 r 0)
scan_opt-FirstOption_example =
    scan_opt-FirstOption 6 area 53 true 0 5 0 area_bytes (omega arith) (omega arith)

-- A host name option whose length byte is 254.
abbrev long_name : Mem
long_name a = if a == 10 then 12 else if a == 11 then 254 else 0

scan_opt_hangs_example : scan_opt 1000 true long_name 53 true 10 20 0 ≡ none
scan_opt_hangs_example =
    scan_opt_hangs 1000 long_name 53 true 10 20 0 (omega arith) (omega arith) (λ e. omega arith)
      (λ e. omega arith) (λ e. omega arith) refl

-- A message whose options overload both fields, with a host name in the sname field.
abbrev overloaded : Mem
overloaded a =
    if a == 240
    then 52
    else if a == 241
    then 1
    else if a == 242
    then 3
    else if a == 243
    then 255
    else if a == 44
    then 12
    else 0

-- With both overloaded the file field is searched, and the sname field is not.
sname_missed : pickup_opt 200 true overloaded 0 251 12 ≡ some none
unfolding pickup_opt scan_opt next_option after_overload option_end
sname_missed = refl
