-- ===== src/Common/Modulus.antt =====
-- Positions that fall on one cell of a table with `m` cells.
use Prim.Native.Nat.{ℕ, ◌+◌, ◌/◌, ◌%◌, ◌≤◌, ◌<◌}
use mathlib.Core.Path.{◌≡◌, ◌∙◌, ap}
use mathlib.Core.Logic.{◌≢◌}
use native.Mathlib.Decide.{dec_lt}
use native.Mathlib.Nat.{mod-add-div, mod-eq-sub-mod, mul-le-mul_left}
use native.Mathlib.Omega.{arith}

pub same_cell : (p m : ℕ) → (p + m) % m ≡ p % m
same_cell p m =
    mod-eq-sub-mod {n = p + m} {m = m} (omega arith) ∙ ap (λ (t : ℕ). t % m) (omega arith)

-- Two positions less than `m` apart lie on different cells.
pub other_cell : (p q m : ℕ) → p < q → q < p + m → p % m ≢ q % m
other_cell p q m h k e = elim (dec_lt (p / m) (q / m)) [
  | yes less ↦ omega (arith, mod-add-div p m, mod-add-div q m, mul-le-mul_left m less)
  | no more ↦ omega (arith, mod-add-div p m, mod-add-div q m, mul-le-mul_left m (le more))
]
  where
    le : ¬ (p / m < q / m) → q / m ≤ p / m
    le n = omega arith
