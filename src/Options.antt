-- ===== src/Options.antt =====
-- Searching a DHCP message for an option, relay/udpfwd/src/dhcp_options.c: dhcpScanOpt and
-- dhcpPickupOpt. Pointers are addresses modulo 2^64. DHCPOPTLEN reads the length through `char *`,
-- so the parameter `signed` says whether the platform's `char` is signed.
pub mod Tests
pub mod Scan
use ops_ipapps.Base.{
  ℕ, zero, suc, ◌+◌, ◌-◌, ◌%◌, ◌^◌, Bool, true, false, ◌&&◌, ◌||◌, Option, none, some, ltb, leb,
  ◌==◌, if◌then◌else◌,
}
use ops_ipapps.Packet.{
  Mem, pad_tag, opt_overload, end_tag, dhcp_options, dhcp_file, dhcp_sname, magic_len, load_be16,
  uh_ulen,
}

abbrev pub address_space : ℕ
address_space = 2 ^ 64

-- opt += 2 + DHCPOPTLEN(opt);
unfoldable pub next_option : Bool → Mem → ℕ → ℕ
next_option signed m opt =
    if signed && leb 128 (m (opt + 1))
    then (opt + 2 + m (opt + 1) + (address_space - 256)) % address_space
    else (opt + 2 + m (opt + 1)) % address_space

-- The value of *ovld_opt after an option that is skipped; the pointer may be NULL.
after_overload : Bool → Mem → ℕ → ℕ → ℕ
after_overload track m opt overload =
    if track && (m opt == opt_overload) then m (opt + 2) else overload

-- The result is the pointer returned, NULL being `none`, and *ovld_opt. The outer `none` is no
-- result of the code: the fuel ran out.
unfoldable pub scan_opt : ℕ → Bool → Mem → ℕ → Bool → ℕ → ℕ → ℕ → Option (Option ℕ × ℕ)
unfolding next_option after_overload
scan_opt zero signed m tag track opt optend overload = none
scan_opt (suc fuel) signed m tag track opt optend overload =
    let padded = scan_opt fuel signed m tag track (opt + 1) optend overload in
    let skipped =
      scan_opt fuel signed m tag track (next_option signed m opt) optend
        (after_overload track m opt overload) in
    if ltb opt optend
    then (if m opt == tag
        then some (some opt, overload)
        else if m opt == end_tag
        then some (none, overload)
        else if m opt == pad_tag
        then padded
        else skipped)
    else some (none, overload)

-- A scan of the file or sname field, whose overload option is ignored.
scan_field : ℕ → Bool → Mem → ℕ → ℕ → ℕ → Option (Option ℕ)
scan_field fuel signed m tag opt optend = elim (scan_opt fuel signed m tag false opt optend 0) [
  | none ↦ none
  | some (found, overload) ↦ some found
]

-- After the options field: return what was found there if no overload was seen, and otherwise
-- search the field that the overload names. BOTH_AREOPT (3) sets both flags, and the `else if` then
-- searches the file field only.
after_options : ℕ → Bool → Mem → ℕ → ℕ → Option ℕ → ℕ → Option (Option ℕ)
after_options fuel signed m dhcp tag found overload =
    if overload == 0
    then some found
    else if (overload == 1) || (overload == 3)
    then scan_field fuel signed m tag (dhcp + dhcp_file) (dhcp + dhcp_file + 128)
    else if overload == 2
    then scan_field fuel signed m tag (dhcp + dhcp_sname) (dhcp + dhcp_sname + 64)
    else some none

-- &dhcp->options[len - 548 + 312] is `len` bytes behind `dhcp`; `len` is an int32_t given by its 32
-- bits, which pointer arithmetic extends by its sign.
unfoldable pub option_end : ℕ → ℕ → ℕ
option_end dhcp len =
    if leb (2 ^ 31) len
    then (dhcp + len + (address_space - 2 ^ 32)) % address_space
    else (dhcp + len) % address_space

unfoldable pub pickup_opt : ℕ → Bool → Mem → ℕ → ℕ → ℕ → Option (Option ℕ)
unfolding scan_field after_options option_end
pickup_opt fuel signed m dhcp len tag =
    let opt = dhcp + dhcp_options + magic_len in
    elim (scan_opt fuel signed m tag true opt (option_end dhcp len) 0) [
      | none ↦ none
      | some (found, overload) ↦ after_options fuel signed m dhcp tag found overload
    ]
