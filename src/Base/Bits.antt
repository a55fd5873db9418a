-- ===== src/Base/Bits.antt =====
-- `&` with masks of low bits and of high bits, as arithmetic, at every width.
use Prim.Native.Nat.{ℕ, zero, suc, ◌+◌, ◌-◌, ◌*◌, ◌/◌, ◌%◌, ◌^◌, ◌≤◌, ◌<◌, bit_and, bit_or}
use mathlib.Core.Path.{◌≡◌, ap, sym, ◌∙◌}
use native.Mathlib.Nat.{pow-suc, pow-zero, one-le-pow, zero-add, suc-add, mod-eq_of_lt, mul-one}
use native.Mathlib.Omega.{arith}
use fsview.Base.Digits.{bit_and_step, bit_or_step, zero-bit_and, zero-bit_or}

zero_below : (bound a : ℕ) → a ≤ bound → bit_and a 0 ≡ 0
zero_below bound zero h = zero-bit_and 0
zero_below zero (suc a) h = absurd (omega arith)
zero_below (suc bound) (suc a) h =
    omega (arith, bit_and_step (suc a) 0, zero_below bound (suc a / 2) (omega arith))

pub bit_and-zero : (a : ℕ) → bit_and a 0 ≡ 0
bit_and-zero a = zero_below a a (omega arith)

or_zero_below : (bound a : ℕ) → a ≤ bound → bit_or a 0 ≡ a
or_zero_below bound zero h = zero-bit_or 0
or_zero_below zero (suc a) h = absurd (omega arith)
or_zero_below (suc bound) (suc a) h =
    omega (arith, bit_or_step (suc a) 0, or_zero_below bound (suc a / 2) (omega arith))

pub bit_or-zero : (a : ℕ) → bit_or a 0 ≡ a
bit_or-zero a = or_zero_below a a (omega arith)

pub pow-add : (a m n : ℕ) → a ^ (m + n) ≡ a ^ m * a ^ n
pow-add a zero n = rw (zero-add n, pow-zero a) (omega arith)
pow-add a (suc m) n = rw suc-add (
    omega (
      arith,
      pow-suc a (m + n),
      pow-suc a m,
      ap (λ (t : ℕ). t * a) (pow-add a m n),
      ap (λ (t : ℕ). t * a ^ n) (pow-suc a m),
    ))

-- The shape of an induction on the width: a field above `k` low bits, one bit shorter.
pub mul-pow-suc : (q k : ℕ) → q * 2 ^ suc k ≡ 2 * (q * 2 ^ k)
mul-pow-suc q k = omega (arith, ap (λ (t : ℕ). q * t) (pow-suc 2 k))

-- A mask of `k` ones keeps the low field.
bit_and_low_fields : (k q r : ℕ) → r < 2 ^ k → bit_and (q * 2 ^ k + r) (2 ^ k - 1) ≡ r
bit_and_low_fields zero q r h = rw bit_and-zero (omega (arith, pow-zero 2))
bit_and_low_fields (suc k) q r h = ground (
  arith,
  bit_and_step (q * 2 ^ suc k + r) (2 ^ suc k - 1),
  mul-pow-suc q k,
  pow-suc 2 k,
  bit_and_low_fields k q (r / 2) (omega (arith, pow-suc 2 k)),
)

pub bit_and_low : (k a : ℕ) → bit_and a (2 ^ k - 1) ≡ a % 2 ^ k
bit_and_low k a = ground (arith, one-le-pow k 2, bit_and_low_fields k (a / 2 ^ k) (a % 2 ^ k))

-- A mask of `m` ones above `k` zeros keeps the high field.
bit_and_high_fields :
    (k m q r : ℕ)
    → r < 2 ^ k
    → q < 2 ^ m
    → bit_and (q * 2 ^ k + r) ((2 ^ m - 1) * 2 ^ k) ≡ q * 2 ^ k
bit_and_high_fields zero m q r h hq =
    rw (q_one, ones_one) (bit_and_low m q ∙ mod-eq_of_lt hq ∙ sym (mul-one q))
  where
    q_one : q * 2 ^ 0 + r ≡ q
    q_one = omega arith

    ones_one : (2 ^ m - 1) * 2 ^ 0 ≡ 2 ^ m - 1
    ones_one = omega arith
bit_and_high_fields (suc k) m q r h hq = ground (
  arith,
  bit_and_step (q * 2 ^ suc k + r) ((2 ^ m - 1) * 2 ^ suc k),
  mul-pow-suc q k,
  mul-pow-suc (2 ^ m - 1) k,
  bit_and_high_fields k m q (r / 2) (omega (arith, pow-suc 2 k)) hq,
)

-- The mask of all ones of a word of `k + m` bits but the `k` lowest rounds down.
pub bit_and_high :
    (k m a : ℕ) → a < 2 ^ (k + m) → bit_and a (2 ^ (k + m) - 2 ^ k) ≡ a / 2 ^ k * 2 ^ k
bit_and_high k m a h = rw mask (
    ap (λ t. bit_and t ((2 ^ m - 1) * 2 ^ k)) parts
    ∙ bit_and_high_fields k m (a / 2 ^ k) (a % 2 ^ k) (grind (arith, one-le-pow k 2)) top)
  where
    mask : 2 ^ (k + m) - 2 ^ k ≡ (2 ^ m - 1) * 2 ^ k
    mask =
        omega (arith, pow-add 2 k m, one-le-pow m 2 (omega arith), ap (λ (t : ℕ). t * 2 ^ k) split)
      where
        split : 2 ^ m ≡ 2 ^ m - 1 + 1
        split = omega (arith, one-le-pow m 2 (omega arith))

    parts : a ≡ a / 2 ^ k * 2 ^ k + a % 2 ^ k
    parts = omega arith

    top : a / 2 ^ k < 2 ^ m
    top = grind (arith, pow-add 2 k m, one-le-pow k 2)
