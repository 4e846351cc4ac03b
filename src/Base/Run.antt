-- ===== src/Base/Run.antt =====
-- Runs on a state, for code that changes it.
use mathlib.Core.Option.{Option, none, some}

-- `none` is a fault: the use of a pointer that is NULL or freed, or a failed assertion.
abbrev pub StateRun : Type 0 → Type 0 → Type 0
StateRun S A = S → Option (A × S)

abbrev pub pure : {S A : Type 0} → A → StateRun S A
pure a s = some (a, s)

abbrev pub and_then : {S A B : Type 0} → Option (A × S) → (A → StateRun S B) → Option (B × S)
and_then none k = none
and_then (some (a, s)) k = k a s

infixl 5 ◌>>=◌ ◌>>◌
abbrev pub ◌>>=◌ : {S A B : Type 0} → StateRun S A → (A → StateRun S B) → StateRun S B
m >>= k = λ s. and_then (m s) k

abbrev pub ◌>>◌ : {S A B : Type 0} → StateRun S A → StateRun S B → StateRun S B
m >> n = m >>= λ _. n

abbrev pub deref : {S A : Type 0} → Option A → StateRun S A
deref none s = none
deref (some a) s = some (a, s)
