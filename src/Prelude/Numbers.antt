-- ===== src/Prelude/Numbers.antt =====
-- Rounding down to a multiple of a unit.
use Prim.Native.Nat.{ℕ, ◌+◌, ◌*◌, ◌/◌, ◌≤◌, ◌<◌}
use mathlib.Core.Path.{◌≡◌}
use native.Mathlib.Omega.{arith}
use native.Mathlib.Nat.{
  mul-le-mul_right, le-div_iff_mul-le, div-mul-le_self, le_trans, div-add-mod, mod-lt, mul_comm,
}

-- `(n // unit) * unit`
unfoldable pub round_down : ℕ → ℕ → ℕ
round_down unit n = n / unit * unit

pub round_down-le : (unit n : ℕ) → round_down unit n ≤ n
unfolding round_down
round_down-le unit n = div-mul-le_self n unit

pub round_down_mono : (unit a b : ℕ) → 0 < unit → a ≤ b → round_down unit a ≤ round_down unit b
unfolding round_down
round_down_mono unit a b u h =
    mul-le-mul_right unit ((le-div_iff_mul-le u).1 (le_trans (div-mul-le_self a unit) h))

pub round_down_gap : (unit n : ℕ) → 0 < unit → n < round_down unit n + unit
unfolding round_down
round_down_gap unit n u = omega (arith, div-add-mod n unit, mod-lt n u, mul_comm unit (n / unit))

-- The result is the largest multiple of the unit that is at most `n`.
pub round_down_greatest : (unit n k : ℕ) → 0 < unit → k * unit ≤ n → k * unit ≤ round_down unit n
unfolding round_down
round_down_greatest unit n k u h = mul-le-mul_right unit ((le-div_iff_mul-le u).1 h)

pub round_down-zero : (unit : ℕ) → round_down unit 0 ≡ 0
round_down-zero unit = omega (arith, round_down-le unit 0)
