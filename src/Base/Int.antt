-- ===== src/Base/Int.antt =====
-- Go's signed integers as ℤ over the native numbers (its int64 and int, without wrap-around: every
-- use states the range where that matters).
use Prim.Native.Nat.{ℕ, suc, ◌+◌, ◌-◌, ◌≤◌}
use mathlib.Core.Path.{◌≡◌}
use mathlib.Core.Bool.{Bool, false, ◌||◌}
use native.Mathlib.Omega.{arith}
use sbnet.Base.Tests.{ltb, leb, if◌then◌else◌}

-- `negsuc n` is -(n + 1).
pub data ℤ : Type 0 where
  pos : ℕ → ℤ
  negsuc : ℕ → ℤ

abbrev pub pos_part : ℤ → ℕ
pos_part (pos n) = n
pos_part (negsuc n) = 0

abbrev pub neg_part : ℤ → ℕ
neg_part (pos n) = 0
neg_part (negsuc n) = suc n

abbrev pub sub_ℕ : ℕ → ℕ → ℤ
sub_ℕ a b = if leb b a then pos (a - b) else negsuc (b - a - 1)

infix 50 ◌≤ℤ◌
infixl 65 ◌-ℤ◌
unfoldable pub ◌-ℤ◌ : ℤ → ℤ → ℤ
a -ℤ b = sub_ℕ (pos_part a + neg_part b) (neg_part a + pos_part b)

-- -n
abbrev pub neg_ℕ : ℕ → ℤ
neg_ℕ n = sub_ℕ 0 n

-- a < b
abbrev pub ltb_ℤ : ℤ → ℤ → Bool
ltb_ℤ a b = ltb (pos_part a + neg_part b) (pos_part b + neg_part a)

-- a ≤ b
abbrev pub ◌≤ℤ◌ : ℤ → ℤ → Type 0
a ≤ℤ b = pos_part a + neg_part b ≤ pos_part b + neg_part a

-- `b` is at most `n` after `a`.
abbrev pub Within : ℕ → ℤ → ℤ → Type 0
Within n a b = pos_part b + neg_part a ≤ pos_part a + neg_part b + n

-- Go's test that a difference lies outside ±n.
abbrev pub out_of_window : ℕ → ℤ → Bool
out_of_window n delta = ltb_ℤ (pos n) delta || ltb_ℤ delta (neg_ℕ n)

pub out_of_window_sound :
    (n : ℕ) (a b : ℤ) → out_of_window n (a -ℤ b) ≡ false → Within n b a × Within n a b
unfolding ◌-ℤ◌
out_of_window_sound n (pos a) (pos b) h = ground arith
out_of_window_sound n (pos a) (negsuc b) h = ground arith
out_of_window_sound n (negsuc a) (pos b) h = ground arith
out_of_window_sound n (negsuc a) (negsuc b) h = ground arith

pub out_of_window_complete :
    (n : ℕ) (a b : ℤ) → Within n b a → Within n a b → out_of_window n (a -ℤ b) ≡ false
unfolding ◌-ℤ◌
out_of_window_complete n (pos a) (pos b) h k = ground arith
out_of_window_complete n (pos a) (negsuc b) h k = ground arith
out_of_window_complete n (negsuc a) (pos b) h k = ground arith
out_of_window_complete n (negsuc a) (negsuc b) h k = ground arith

pub out_of_window_self : (n : ℕ) (a : ℤ) → out_of_window n (a -ℤ a) ≡ false
unfolding ◌-ℤ◌
out_of_window_self n (pos a) = ground arith
out_of_window_self n (negsuc a) = ground arith

pub ltb_ℤ-irrefl : (a : ℤ) → ltb_ℤ a a ≡ false
ltb_ℤ-irrefl a = ground arith
