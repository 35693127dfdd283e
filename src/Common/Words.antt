-- ===== src/Common/Words.antt =====
-- `size_t` and `intptr_t` of a 64-bit target, with their wrap-around.
use Prim.Native.Nat.{ℕ, suc, ◌+◌, ◌-◌, ◌%◌, ◌^◌, ◌<◌}
use mathlib.Core.Path.{◌≡◌}
use mathlib.Core.Bool.{Bool, true, false}
use native.Mathlib.Omega.{arith}
use tyche_engine.Common.Tests.{ltb, leb, if◌then◌else◌}

-- `negsuc n` is -(n + 1).
pub data ℤ : Type 0 where
  pos : ℕ → ℤ
  negsuc : ℕ → ℤ

abbrev pub pos_part : ℤ → ℕ
pos_part (pos n) = n
pos_part (negsuc n) = 0

abbrev pub neg_part : ℤ → ℕ
neg_part (pos n) = 0
neg_part (negsuc n) = suc n

abbrev pub sub_ℕ : ℕ → ℕ → ℤ
sub_ℕ a b = if leb b a then pos (a - b) else negsuc (b - a - 1)

infixl 65 ◌-ℤ◌
unfoldable pub ◌-ℤ◌ : ℤ → ℤ → ℤ
a -ℤ b = sub_ℕ (pos_part a + neg_part b) (neg_part a + pos_part b)

abbrev pub word : ℕ
word = 2 ^ 64

abbrev pub add_size : ℕ → ℕ → ℕ
add_size a b = (a + b) % word

abbrev pub sub_size : ℕ → ℕ → ℕ
sub_size a b = (a + word - b) % word

-- `static_cast<intptr_t>(x)`
unfoldable pub to_intptr : ℕ → ℤ
to_intptr x = if ltb x (2 ^ 63) then pos x else negsuc (word - x - 1)

abbrev pub is_zero : ℤ → Bool
is_zero (pos n) = leb n 0
is_zero (negsuc n) = false

abbrev pub is_neg : ℤ → Bool
is_neg (pos n) = false
is_neg (negsuc n) = true

-- `static_cast<intptr_t>(a) - static_cast<intptr_t>(b)`
unfoldable pub gap : ℕ → ℕ → ℤ
unfolding to_intptr ◌-ℤ◌
gap a b = to_intptr a -ℤ to_intptr b

pub gap-eq : (a b : ℕ) → a < 2 ^ 63 → a ≡ b → is_zero (gap a b) ≡ true
unfolding gap
gap-eq a b h e = ground arith

pub gap-lt :
    (a b : ℕ) → b < 2 ^ 63 → a < b → (is_zero (gap a b) ≡ false) × (is_neg (gap a b) ≡ true)
unfolding gap
gap-lt a b h l = ground arith

-- `static_cast<int32_t>(x)`
unfoldable pub to_int32 : ℕ → ℤ
to_int32 x = if ltb x (2 ^ 31) then pos x else negsuc (2 ^ 32 - x - 1)

-- `static_cast<int32_t>(a) - static_cast<int32_t>(b)`
unfoldable pub gap32 : ℕ → ℕ → ℤ
unfolding to_int32 ◌-ℤ◌
gap32 a b = to_int32 a -ℤ to_int32 b

pub gap32-eq : (a b : ℕ) → a < 2 ^ 32 → a ≡ b → is_zero (gap32 a b) ≡ true
unfolding gap32
gap32-eq a b h e = ground arith

pub gap32-lt :
    (a b : ℕ) → b < 2 ^ 31 → a < b → (is_zero (gap32 a b) ≡ false) × (is_neg (gap32 a b) ≡ true)
unfolding gap32
gap32-lt a b h l = ground arith

pub gap32-gt :
    (a b : ℕ) → a < 2 ^ 31 → b < a → (is_zero (gap32 a b) ≡ false) × (is_neg (gap32 a b) ≡ false)
unfolding gap32
gap32-gt a b h l = ground arith
