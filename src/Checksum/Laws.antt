-- ===== src/Checksum/Laws.antt =====
-- The checksum closes the ones' complement sum.
use ops_ipapps.Base.{Bool, true, false, ℕ, zero, suc, ◌+◌, ◌*◌, ◌^◌, ◌%◌, ◌<◌, ◌≤◌, ◌≡◌, arith}
use ops_ipapps.Packet.{Mem, load_le16}
use ops_ipapps.Checksum.{sum_words, fold_sum, in_cksum}

fold_sum_closes : (sum : ℕ) → sum < 2 ^ 31 → (sum + fold_sum sum) % 65535 ≡ 0
unfolding fold_sum
fold_sum_closes sum small = omega arith

sum_words_bound :
    (m : Mem) (w n sum : ℕ) → ((a : ℕ) → m a < 256) → sum_words m w n sum ≤ sum + n * 32768
unfolding sum_words load_le16
sum_words_bound m w zero sum bytes = omega arith
sum_words_bound m w (suc zero) sum bytes = let b = bytes w in omega arith
sum_words_bound m w (suc (suc n)) sum bytes =
    let b = bytes w in
    let b' = bytes (w + 1) in
    let rest = sum_words_bound m (w + 2) n (sum + load_le16 m w) bytes in omega arith

-- The bytes of an area, each weighted by its place in a little-endian 16-bit word: the byte at an
-- even offset by 1, the one at an odd offset by 256.
abbrev pub weigh : Mem → ℕ → ℕ → Bool → ℕ
weigh m a zero high = 0
weigh m a (suc n) true = 256 * m a + weigh m (a + 1) n false
weigh m a (suc n) false = m a + weigh m (a + 1) n true

sum_words-weigh : (m : Mem) (w n sum : ℕ) → sum_words m w n sum ≡ sum + weigh m w n false
unfolding sum_words load_le16
sum_words-weigh m w zero sum = omega arith
sum_words-weigh m w (suc zero) sum = omega arith
sum_words-weigh m w (suc (suc n)) sum =
    let rest = sum_words-weigh m (w + 2) n (sum + load_le16 m w) in
    let next : w + 1 + 1 ≡ w + 2 = omega arith in rw next (omega arith)

-- Over bytes, for a length below 2^16 and no previous checksum: all bytes of the area, weighted by
-- their place in their 16-bit word, the last one of an odd length included, and the checksum add up
-- to zero in ones' complement arithmetic, which is what a receiver tests.
pub in_cksum_closes :
    (m : Mem) (addr len : ℕ)
    → ((a : ℕ) → m a < 256)
    → len < 2 ^ 16
    → (weigh m addr len false + in_cksum m addr len 0) % 65535 ≡ 0
unfolding in_cksum
in_cksum_closes m addr len bytes small =
    let bound = sum_words_bound m addr len 0 bytes in
    let same = sum_words-weigh m addr len 0 in
    let closes = fold_sum_closes (sum_words m addr len 0) (omega arith) in omega arith
