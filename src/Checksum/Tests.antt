-- ===== src/Checksum/Tests.antt =====
-- The checksum of an odd number of bytes.
use ops_ipapps.Base.{false, ℕ, ◌+◌, ◌%◌, ◌<◌, ◌≡◌, arith, ◌==◌, if◌then◌else◌}
use ops_ipapps.Packet.{Mem}
use ops_ipapps.Checksum.{in_cksum}
use ops_ipapps.Checksum.Laws.{weigh, in_cksum_closes}

abbrev data_bytes : Mem
data_bytes a = if a == 4 then 200 else 255

data_are_bytes : (a : ℕ) → data_bytes a < 256
data_are_bytes a = ground arith

in_cksum_closes_example : (weigh data_bytes 0 5 false + in_cksum data_bytes 0 5 0) % 65535 ≡ 0
in_cksum_closes_example = in_cksum_closes data_bytes 0 5 data_are_bytes (omega arith)
