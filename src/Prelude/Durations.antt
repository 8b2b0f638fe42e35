-- ===== src/Prelude/Durations.antt =====
-- Instants and durations. An instant is a count of nanoseconds, where 0 is Go's zero `time.Time`;
-- a difference of instants is signed.
use Prim.Native.Nat.{ℕ, suc, ◌+◌, ◌-◌}
use mathlib.Core.Bool.{Bool}
use arcmux.Prelude.Tests.{leb, ltb, ◌==◌, if◌then◌else◌}

abbrev pub Time : Type 0
Time = ℕ

-- `negsuc n` is -(n + 1).
pub data ℤ : Type 0 where
  pos : ℕ → ℤ
  negsuc : ℕ → ℤ

abbrev pub pos_part : ℤ → ℕ
pos_part (pos n) = n
pos_part (negsuc n) = 0

abbrev pub neg_part : ℤ → ℕ
neg_part (pos n) = 0
neg_part (negsuc n) = suc n

abbrev pub sub_ℕ : ℕ → ℕ → ℤ
sub_ℕ a b = if leb b a then pos (a - b) else negsuc (b - a - 1)

abbrev pub leb_ℤ : ℤ → ℤ → Bool
leb_ℤ a b = leb (pos_part a + neg_part b) (pos_part b + neg_part a)

abbrev pub ltb_ℤ : ℤ → ℤ → Bool
ltb_ℤ a b = ltb (pos_part a + neg_part b) (pos_part b + neg_part a)

-- t.IsZero()
abbrev pub is_zero : Time → Bool
is_zero t = t == 0

-- a.After(b)
abbrev pub after : Time → Time → Bool
after a b = ltb b a

-- a.Sub(b)
abbrev pub since : Time → Time → ℤ
since a b = sub_ℕ a b

abbrev pub second : ℕ
second = 1_000_000_000
