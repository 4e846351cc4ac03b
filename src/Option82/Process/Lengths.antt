-- ===== src/Option82/Process/Lengths.antt =====
-- The length fields that are written back, and what they leave alone.
use ops_ipapps.Base.{
  ℕ, ◌+◌, ◌-◌, ◌/◌, ◌%◌, ◌≤◌, ◌<◌, ◌≡◌, refl, ◌∙◌, ◌⊎◌, inl, inr, [], ◌∷◌, ltb, if◌then◌else◌,
  arith, if_elim,
}
use ops_ipapps.Packet.{
  Mem, store_bytes, clear, store_be16, load_be16, ip_len, ip_sum, uh_ulen, uh_sum,
}
use ops_ipapps.Packet.Laws.{Holds-store_bytes, store_bytes_below, store_bytes_above}
use ops_ipapps.Option82.{Call}
use ops_ipapps.Option82.Process.{minbootplen, write_lengths}

clear_below : (m : Mem) (a n b : ℕ) → b < a → clear m a n b ≡ m b
unfolding clear
clear_below m a n b h = ground arith

store_be16_outside : (m : Mem) (a v b : ℕ) → (b < a) ⊎ (a + 2 ≤ b) → store_be16 m a v b ≡ m b
unfolding store_be16
store_be16_outside m a v b (inl h) = store_bytes_below m a _ b h
store_be16_outside m a v b (inr h) = store_bytes_above m a _ b h

load_be16-store_be16 :
    (m n : Mem) (a v : ℕ)
    → v < 65536
    → ((b : ℕ) → a ≤ b → b < a + 2 → n b ≡ store_be16 m a v b)
    → load_be16 n a ≡ v
unfolding load_be16 store_be16
load_be16-store_be16 m n a v small same =
    let held = Holds-store_bytes m a (v / 256 % 256 ∷ v % 256 ∷ []) in
    let hi : n a ≡ v / 256 % 256 = same a (omega arith) (omega arith) ∙ held.0 in
    let lo : n (a + 1) ≡ v % 256 = same (a + 1) (omega arith) (omega arith) ∙ held.1.0 in
    rw (hi, lo) (omega arith)

zeros_outside : (m : Mem) (a b : ℕ) → (b < a) ⊎ (a + 2 ≤ b) → store_bytes m a (0 ∷ 0 ∷ []) b ≡ m b
zeros_outside m a b (inl h) = store_bytes_below m a _ b h
zeros_outside m a b (inr h) = store_bytes_above m a _ b h

-- The length that is written: the message's, and that of a minimal BOOTP message at least.
abbrev pub padded_length : ℕ → ℕ
padded_length len = if ltb len minbootplen then minbootplen else len

module _ (c : Call) (m : Mem) (udph dhcp sp : ℕ) (layout : dhcp ≡ udph + 8)
    (behind_ip : c.pkt + 20 ≤ udph) where
  -- The message itself is not touched.
  pub write_lengths_message : (a : ℕ) → dhcp ≤ a → a < sp → write_lengths c m udph dhcp sp a ≡ m a
  unfolding write_lengths
  write_lengths_message a l u =
      zeros_outside _ (c.pkt + ip_sum) a (inr (omega arith))
      ∙ store_be16_outside _ (c.pkt + ip_len) _ a (inr (omega arith))
      ∙ zeros_outside _ (udph + uh_sum) a (inr (omega arith))
      ∙ store_be16_outside _ (udph + uh_ulen) _ a (inr (omega arith))
      ∙ if_elim (λ (x : Mem). x a ≡ m a) (ltb (sp - dhcp) minbootplen)
          (clear m sp (minbootplen - (sp - dhcp))) m (λ _. clear_below m sp _ a u) (λ _. refl)

  pub write_lengths_ulen :
      padded_length (sp - dhcp) + 8 < 65536
      → load_be16 (write_lengths c m udph dhcp sp) (udph + uh_ulen) ≡ padded_length (sp - dhcp) + 8
  unfolding write_lengths
  write_lengths_ulen small =
      load_be16-store_be16 _ _ (udph + uh_ulen) (padded_length (sp - dhcp) + 8) small λ b l u.
        zeros_outside _ (c.pkt + ip_sum) b (inr (omega arith))
        ∙ store_be16_outside _ (c.pkt + ip_len) _ b (inr (omega arith))
        ∙ zeros_outside _ (udph + uh_sum) b (inl (omega arith))
