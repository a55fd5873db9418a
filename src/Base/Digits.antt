-- ===== src/Base/Digits.antt =====
-- The native `&` and `|` stand for a recursion on binary digits with fuel. One equation for the
-- lowest digit replaces it.
use Prim.Native.Nat.{
  ℕ, zero, suc, ◌+◌, ◌*◌, ◌/◌, ◌%◌, ◌≤◌, min, max, bit_and, bit_or, digits, bit_and-bitwise,
  bit_or-bitwise,
}
use mathlib.Core.Path.{◌≡◌, refl, ap, ◌∙◌}
use mathlib.Core.Logic.{inl, inr}
use native.Mathlib.Omega.{arith}
use fsview.Base.Tests.{eq_or_ne}

module _ (alone : ℕ → ℕ) (join : ℕ → ℕ → ℕ) where
  -- One more unit of fuel changes nothing where there was enough.
  one_more :
      (fuel a b : ℕ) → a ≤ fuel → digits alone join (suc fuel) a b ≡ digits alone join fuel a b
  one_more zero zero b h = refl
  one_more zero (suc a) b h = absurd (omega arith)
  one_more (suc fuel) zero b h = refl
  one_more (suc fuel) (suc a) b h =
      ap (λ t. t * 2 + join (suc a % 2) (b % 2)) (one_more fuel (suc a / 2) (b / 2) (omega arith))

  enough :
      (large fuel a b : ℕ)
      → a ≤ fuel
      → fuel ≤ large
      → digits alone join large a b ≡ digits alone join fuel a b
  enough zero fuel a b h le =
      let e : zero ≡ fuel = omega arith in ap (λ f. digits alone join f a b) e
  enough (suc large) fuel a b h le = elim (eq_or_ne (suc large) fuel) [
    | inl e ↦ ap (λ f. digits alone join f a b) e
    | inr ne ↦ one_more large a b (omega arith) ∙ enough large fuel a b h (omega arith)
  ]

  lowest_digit :
      (a b : ℕ)
      → digits alone join (suc a) (suc a) b
        ≡ digits alone join (suc a / 2) (suc a / 2) (b / 2) * 2 + join (suc a % 2) (b % 2)
  lowest_digit a b =
      ap (λ t. t * 2 + join (suc a % 2) (b % 2))
        (enough a (suc a / 2) (suc a / 2) (b / 2) (omega arith) (omega arith))

pub zero-bit_and : (b : ℕ) → bit_and 0 b ≡ 0
zero-bit_and b = bit_and-bitwise 0 b

pub zero-bit_or : (b : ℕ) → bit_or 0 b ≡ b
zero-bit_or b = bit_or-bitwise 0 b

-- The first argument decides the recursion, so the lowest digits of both are split off by its form.
pub bit_and_step : (x y : ℕ) → bit_and x y ≡ bit_and (x / 2) (y / 2) * 2 + min (x % 2) (y % 2)
bit_and_step (suc x) y =
    let digit = lowest_digit (λ t. zero) min x y in
    omega (arith, digit, bit_and-bitwise (suc x / 2) (y / 2), bit_and-bitwise (suc x) y)
bit_and_step zero y = omega (arith, zero-bit_and (y / 2), zero-bit_and y)

pub bit_or_step : (x y : ℕ) → bit_or x y ≡ bit_or (x / 2) (y / 2) * 2 + max (x % 2) (y % 2)
bit_or_step (suc x) y =
    let digit = lowest_digit (λ t. t) max x y in
    omega (arith, digit, bit_or-bitwise (suc x / 2) (y / 2), bit_or-bitwise (suc x) y)
bit_or_step zero y = omega (arith, zero-bit_or (y / 2), zero-bit_or y)
