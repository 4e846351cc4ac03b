-- ===== src/Checksum.antt =====
-- in_cksum of relay/udpfwd/src/udpfwd_util.c.
pub mod Laws
pub mod Tests
use ops_ipapps.Base.{ℕ, zero, suc, ◌+◌, ◌-◌, ◌/◌, ◌%◌, ◌^◌}
use ops_ipapps.Packet.{Mem, load_le16}

-- The sum of the 16-bit words, as a little-endian machine reads them, with an odd byte at the end.
-- The code's 32-bit sum does not overflow for a length below 2^16.
unfoldable pub sum_words : Mem → ℕ → ℕ → ℕ → ℕ
sum_words m w zero sum = sum
sum_words m w (suc zero) sum = sum + m w
sum_words m w (suc (suc nleft)) sum = sum_words m (w + 2) nleft (sum + load_le16 m w)

-- Add the carries back, twice, and complement.
unfoldable pub fold_sum : ℕ → ℕ
fold_sum sum =
    let once = sum / 2 ^ 16 + sum % 2 ^ 16 in
    let twice = once + once / 2 ^ 16 in 2 ^ 16 - 1 - twice % 2 ^ 16

unfoldable pub in_cksum : Mem → ℕ → ℕ → ℕ → ℕ
unfolding sum_words fold_sum
in_cksum m addr len csum = fold_sum (sum_words m addr len csum)
