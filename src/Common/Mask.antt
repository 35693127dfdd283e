-- ===== src/Common/Mask.antt =====
-- A mask of `k` ones keeps the lowest `k` binary digits: `x & (2^k - 1)` is `x % 2^k`.
use Prim.Native.Nat.{
  ℕ, zero, suc, ◌+◌, ◌-◌, ◌*◌, ◌/◌, ◌%◌, ◌^◌, ◌≤◌, min, bit_and, digits, bit_and-bitwise,
}
use mathlib.Core.Path.{◌≡◌, refl, ap}
use native.Mathlib.Nat.{div-div-eq-div-mul, mod-add-div, two-pow-succ, one-le-pow}
use native.Mathlib.Decide.{ℕ_discrete}
use native.Mathlib.Omega.{arith}

half_mod : (a p : ℕ) → a / 2 % p * 2 + a % 2 ≡ a % (2 * p)
half_mod a p = omega (
  arith,
  mod-add-div a (2 * p),
  mod-add-div (a / 2) p,
  ap (λ (t : ℕ). p * t) (div-div-eq-div-mul a 2 p),
)

-- What `bit_and` computes is the same for every count of digits that is enough.
enough_digits :
    (n m a b : ℕ) → a ≤ n → a ≤ m → digits (λ _. zero) min n a b ≡ digits (λ _. zero) min m a b
enough_digits zero zero a b p q = refl
enough_digits zero (suc m) zero b p q = refl
enough_digits zero (suc m) (suc a) b p q = absurd (omega arith)
enough_digits (suc n) zero zero b p q = refl
enough_digits (suc n) zero (suc a) b p q = absurd (omega arith)
enough_digits (suc n) (suc m) zero b p q = refl
enough_digits (suc n) (suc m) (suc a) b p q =
    ap (λ t. t * 2 + min (suc a % 2) (b % 2))
      (enough_digits n m (suc a / 2) (b / 2) (omega arith) (omega arith))

zero-bit_and : (b : ℕ) → bit_and 0 b ≡ 0
zero-bit_and b = bit_and-bitwise 0 b

bit_and-halves : (a b : ℕ) → bit_and a b ≡ bit_and (a / 2) (b / 2) * 2 + min (a % 2) (b % 2)
bit_and-halves zero b = omega (arith, zero-bit_and b, zero-bit_and (b / 2))
bit_and-halves (suc a) b = omega (
  arith,
  bit_and-bitwise (suc a) b,
  bit_and-bitwise (suc a / 2) (b / 2),
  enough_digits a (suc a / 2) (suc a / 2) (b / 2) (omega arith) (omega arith),
)

nothing_masked : (n a : ℕ) → a ≤ n → bit_and a 0 ≡ 0
nothing_masked n zero h = zero-bit_and 0
nothing_masked zero (suc a) h = absurd (omega arith)
nothing_masked (suc n) (suc a) h =
    omega (arith, bit_and-halves (suc a) 0, nothing_masked n (suc a / 2) (omega arith))

pub bit_and-mask : (k a : ℕ) → bit_and a (2 ^ k - 1) ≡ a % 2 ^ k
bit_and-mask zero a = omega (arith, nothing_masked a a (omega arith))
bit_and-mask (suc k) a = omega (
  arith,
  two-pow-succ k,
  one-le-pow k 2 (omega arith),
  bit_and-halves a (2 ^ suc k - 1),
  ap (λ t. bit_and (a / 2) t) halved,
  bit_and-mask k (a / 2),
  half_mod a (2 ^ k),
  ap (λ t. a % t) doubled,
)
  where
    halved : (2 ^ suc k - 1) / 2 ≡ 2 ^ k - 1
    halved = omega (arith, two-pow-succ k, one-le-pow k 2 (omega arith))

    doubled : 2 ^ suc k ≡ 2 * 2 ^ k
    doubled = omega (arith, two-pow-succ k)

bit_and_self : (n a : ℕ) → a ≤ n → bit_and a a ≡ a
bit_and_self n zero h = zero-bit_and 0
bit_and_self zero (suc a) h = absurd (omega arith)
bit_and_self (suc n) (suc a) h =
    omega (arith, bit_and-halves (suc a) (suc a), bit_and_self n (suc a / 2) (omega arith))

-- `n & (n - 1)` is zero for the powers of two, and for no other positive number.
pub power_of_clear : (fuel n : ℕ) → n ≤ fuel → 1 ≤ n → bit_and n (n - 1) ≡ 0 → (k : ℕ) × (n ≡ 2 ^ k)
power_of_clear zero n h p e = absurd (omega arith)
power_of_clear (suc fuel) n h p e = elim (ℕ_discrete (n % 2) 0) [
  | yes even ↦
      let (k, q) =
        power_of_clear fuel (n / 2) (omega arith) (omega arith)
          (omega (arith, bit_and-halves n (n - 1), ap (λ t. bit_and (n / 2) t) (lower even), e)) in
      (suc k, omega (arith, two-pow-succ k, q))
  | no odd ↦ (
    0,
    omega (
      arith,
      bit_and-halves n (n - 1),
      ap (λ t. bit_and (n / 2) t) (same odd),
      bit_and_self (n / 2) (n / 2) (omega arith),
      e,
    ),
  )
]
  where
    lower : n % 2 ≡ 0 → (n - 1) / 2 ≡ n / 2 - 1
    lower even = omega arith

    same : ¬ (n % 2 ≡ 0) → (n - 1) / 2 ≡ n / 2
    same odd = omega arith
