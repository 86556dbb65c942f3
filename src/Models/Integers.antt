-- ===== src/Models/Integers.antt =====
-- Integers over the native numbers: priorities and differences of times.
use runscope.Prelude.{ℕ, ◌+◌, ◌-◌, Bool, ltb, leb, if◌then◌else◌}
use runscope.Models.{ℤ, pos, negsuc}

-- The order.
abbrev pub pos_part : ℤ → ℕ
pos_part (pos n) = n
pos_part (negsuc n) = 0

abbrev pub neg_part : ℤ → ℕ
neg_part (pos n) = 0
neg_part (negsuc n) = n + 1

abbrev pub ltb_ℤ : ℤ → ℤ → Bool
ltb_ℤ a b = ltb (pos_part a + neg_part b) (pos_part b + neg_part a)

-- The difference of two natural numbers.
infixl 60 ◌-ℤ◌ ◌+ℤ◌
abbrev pub ◌-ℤ◌ : ℕ → ℕ → ℤ
a -ℤ b = if leb b a then pos (a - b) else negsuc (b - a - 1)

abbrev pub ◌+ℤ◌ : ℤ → ℤ → ℤ
a +ℤ b = (pos_part a + pos_part b) -ℤ (neg_part a + neg_part b)
