-- ===== src/Int.antt =====
-- Signed machine integers, by the integer that they stand for.
use moenotes_api.Prelude.{Bool, false, ltb, suc, true, zero, ℕ, ◌<◌, ◌≤◌}

-- `negsuc n` is -(n + 1).
pub data ℤ : Type 0 where
  pos : ℕ → ℤ
  negsuc : ℕ → ℤ

abbrev pub pos_part : ℤ → ℕ
pos_part (pos n) = n
pos_part (negsuc n) = 0

abbrev pub neg_part : ℤ → ℕ
neg_part (pos n) = 0
neg_part (negsuc n) = suc n

abbrev pub is_positive : ℤ → Bool
is_positive z = ltb 0 (pos_part z)

abbrev pub is_nonnegative : ℤ → Bool
is_nonnegative (pos n) = true
is_nonnegative (negsuc n) = false

abbrev pub is_zero : ℤ → Bool
is_zero (pos zero) = true
is_zero _ = false

-- A `w`-bit value: `half` is `2 ^ (w - 1)`.
abbrev pub InRange : ℕ → ℤ → Type 0
InRange half z = (pos_part z < half) × (neg_part z ≤ half)
