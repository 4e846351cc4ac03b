-- ===== src/Agent/Valid.antt =====
-- What dhcp_relay_validate_agent_option accepts.
use ops_ipapps.Base.{
  ℕ, zero, suc, ◌+◌, ◌-◌, ◌/◌, ◌%◌, ◌^◌, ◌≤◌, ◌<◌, ◌≡◌, ◌≢◌, inl, inr, refl, true, false, Option,
  none, some, List, ◌∷◌, ltb, length, Text, arith, ◌∙◌, Bool-cases,
}
use ops_ipapps.Packet.{Mem}
use ops_ipapps.Packet.Laws.{Holds}
use ops_ipapps.Ifaddrs.{Host}
use ops_ipapps.Global.{Option82RemoteId}
use ops_ipapps.Agent.{
  Validation, invalid_option_82, Option82Info, SubOptions, WalkResult, walked, malformed,
  out_of_fuel, record_sub, walk_on, walk, after_walk, validate_agent_option,
}

walk_on-ne :
    (o : Option SubOptions) (k : SubOptions → WalkResult)
    → ((s : SubOptions) → k s ≢ out_of_fuel)
    → walk_on o k ≢ out_of_fuel
unfolding walk_on
walk_on-ne none k h e = cc
walk_on-ne (some s) k h e = h s e

-- One round ends the walk, or goes on behind the sub-option.
walk_round :
    (fuel : ℕ) (m : Mem) (buf buflen iter : ℕ) (s : SubOptions)
    → buflen - iter < suc fuel
    → ((s' : SubOptions)
        → buflen - (iter + 2 + m (buf + iter + 1)) < fuel
        → walk fuel m buf buflen (iter + 2 + m (buf + iter + 1)) s' ≢ out_of_fuel)
    → walk (suc fuel) m buf buflen iter s ≢ out_of_fuel
unfolding walk
walk_round fuel m buf buflen iter s enough more = elim (Bool-cases (ltb (iter + 1) buflen)) [
  | inr over ↦ rw over (λ e. cc)
  | inl on ↦ elim (Bool-cases (ltb buflen (iter + 2 + m (buf + iter + 1)))) [
    | inl past ↦ rw (on, past) (λ e. cc)
    | inr fits ↦ rw (on, fits) (walk_on-ne _ _ (λ s'. more s' (ground arith)))
  ]
]

walk-ne-out_of_fuel :
    (fuel : ℕ) (m : Mem) (buf buflen iter : ℕ) (s : SubOptions)
    → buflen - iter < fuel
    → walk fuel m buf buflen iter s ≢ out_of_fuel
unfolding walk
walk-ne-out_of_fuel zero m buf buflen iter s enough = absurd (omega arith)
walk-ne-out_of_fuel (suc fuel) m buf buflen iter s enough =
    walk_round fuel m buf buflen iter s enough
      (λ s'. walk-ne-out_of_fuel fuel m buf buflen (iter + 2 + m (buf + iter + 1)) s')

-- The end of the walk, for every option.
validated :
    (h : Host) (name : Text) (stale : List ℕ) (m : Mem) (kind : Option82RemoteId) (w : WalkResult)
    (info : Option82Info)
    → w ≢ out_of_fuel
    → (r : Validation × Option82Info) × (after_walk h name stale m kind w info ≡ some r)
unfolding after_walk
validated h name stale m kind (walked s) info ne = (_, refl)
validated h name stale m kind malformed info ne = ((invalid_option_82, info), refl)
validated h name stale m kind out_of_fuel info ne = absurd (ne refl)

-- Validation ends on every buffer: its walk takes no more rounds than the buffer has bytes.
pub validate_agent_option_total :
    (h : Host) (name : Text) (stale : List ℕ) (m : Mem) (buf buflen : ℕ) (kind : Option82RemoteId)
    (info : Option82Info)
    → (r : Validation × Option82Info) × (validate_agent_option h name stale m buf buflen kind info
        ≡ some r)
unfolding validate_agent_option
validate_agent_option_total h name stale m buf buflen kind info =
    validated h name stale m kind _ info (
      walk-ne-out_of_fuel (suc buflen) m buf buflen 0 (record { circuit = none; remote = none })
        (omega arith))

-- The sub-options that this relay writes: a circuit id of four bytes and a remote id.
abbrev pub own_sub_options : ℕ → List ℕ → List ℕ
own_sub_options circuit remote =
    1
    ∷ 4
    ∷ circuit / 2 ^ 24 % 256
    ∷ circuit / 2 ^ 16 % 256
    ∷ circuit / 2 ^ 8 % 256
    ∷ circuit % 256
    ∷ 2
    ∷ length remote
    ∷ remote

-- A round over a sub-option that fits, and the end of the walk.
walk_step :
    (fuel : ℕ) (m : Mem) (buf buflen iter opttype optlen at next : ℕ) (s s' : SubOptions)
    → m (buf + iter) ≡ opttype
    → m (buf + iter + 1) ≡ optlen
    → buf + iter + 2 ≡ at
    → iter + 2 + optlen ≡ next
    → iter + 1 < buflen
    → next ≤ buflen
    → record_sub opttype (record { at = at; len = optlen }) s ≡ some s'
    → walk (suc fuel) m buf buflen iter s ≡ walk fuel m buf buflen next s'
unfolding walk walk_on
walk_step fuel m buf buflen iter opttype optlen at next s s' et el ea en on fits es =
    let more : ltb (iter + 1) buflen ≡ true = ground arith in
    let within : ltb buflen next ≡ false = ground arith in rw (et, el, ea, en, more, within, es)

walk_done :
    (fuel : ℕ) (m : Mem) (buf buflen : ℕ) (s : SubOptions)
    → walk (suc fuel) m buf buflen buflen s ≡ walked s
unfolding walk
walk_done fuel m buf buflen s = ground arith

pub walk_own :
    (fuel : ℕ) (m : Mem) (buf : ℕ) (circuit : ℕ) (remote : List ℕ)
    → Holds m buf (own_sub_options circuit remote)
    → walk
        (suc (suc (suc fuel)))
        m
        buf
        (8 + length remote)
        0
        (record { circuit = none; remote = none })
      ≡ walked (record {
        circuit = some (record { at = buf + 2; len = 4 });
        remote = some (record { at = buf + 8; len = length remote });
      })
unfolding record_sub
walk_own fuel m buf circuit remote held =
    walk_step (suc (suc fuel)) m buf (8 + length remote) 0 1 4 (buf + 2) 6 _ _ (ground arith)
      (ground arith) (omega arith) refl (omega arith) (omega arith) refl
    ∙ walk_step (suc fuel) m buf (8 + length remote) 6 2 (length remote) (buf + 8)
        (8 + length remote) _ _ (ground arith) (ground arith) (omega arith) (omega arith)
        (omega arith) (omega arith) refl
    ∙ walk_done fuel m buf (8 + length remote) _
