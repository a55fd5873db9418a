-- ===== src/Base/TestBit.antt =====
-- Single bits of a number, through `|`, shifts and the complement.
use Prim.Native.Nat.{ℕ, zero, suc, ◌+◌, ◌-◌, ◌*◌, ◌/◌, ◌%◌, ◌^◌, ◌≤◌, ◌<◌, max, bit_or}
use mathlib.Core.Path.{◌≡◌, ap, sym, ◌∙◌}
use native.Mathlib.Nat.{pow-suc, one-le-pow, add-mul-mod_self_left, mod-eq_of_lt}
use native.Mathlib.Omega.{arith}
use fsview.Base.Digits.{bit_or_step}
use fsview.Base.Tests.{leb, if◌then◌else◌}

-- Bit `i` of `x`.
unfoldable pub test_bit : ℕ → ℕ → ℕ
test_bit x zero = x % 2
test_bit x (suc i) = test_bit (x / 2) i

-- Halving a remainder by an even modulus.
half_mod : (x m : ℕ) → 1 ≤ m → x % (m * 2) / 2 ≡ x / 2 % m
half_mod x m h =
    let q : ℕ = x / (m * 2) in
    let r : ℕ = x % (m * 2) in
    let small : r < m * 2 = omega arith in
    let parts : x / 2 ≡ r / 2 + m * q = omega arith in
    sym (ap (λ t. t % m) parts ∙ add-mul-mod_self_left (r / 2) m q ∙ mod-eq_of_lt (omega arith))

mod_half : (x w : ℕ) → (x % 2 ^ suc w / 2 ≡ x / 2 % 2 ^ w) × (x % 2 ^ suc w % 2 ≡ x % 2)
mod_half x w = rw (pow-suc 2 w) (half_mod x (2 ^ w) (one-le-pow w 2 (omega arith)), omega arith)

pub test_bit-mod : (w i x : ℕ) → i < w → test_bit (x % 2 ^ w) i ≡ test_bit x i
unfolding test_bit
test_bit-mod zero i x h = absurd (omega arith)
test_bit-mod (suc w) zero x h = (mod_half x w).1
test_bit-mod (suc w) (suc i) x h = rw (mod_half x w).0 (test_bit-mod w i (x / 2) (omega arith))

test_bit-mul_small : (n i a : ℕ) → i < n → test_bit (a * 2 ^ n) i ≡ 0
unfolding test_bit
test_bit-mul_small zero i a h = absurd (omega arith)
test_bit-mul_small (suc n) zero a h =
    omega (arith, pow-suc 2 n, ap (λ (t : ℕ). a * t) (pow-suc 2 n))
test_bit-mul_small (suc n) (suc i) a h =
    let half : a * 2 ^ suc n / 2 ≡ a * 2 ^ n = omega (arith, ap (λ (t : ℕ). a * t) (pow-suc 2 n)) in
    rw half (test_bit-mul_small n i a (omega arith))

test_bit-mul_large : (n i a : ℕ) → n ≤ i → test_bit (a * 2 ^ n) i ≡ test_bit a (i - n)
unfolding test_bit
test_bit-mul_large zero i a h =
    let same : a * 2 ^ 0 ≡ a = omega arith in
    let index : i - 0 ≡ i = omega arith in rw (same, index)
test_bit-mul_large (suc n) zero a h = absurd (omega arith)
test_bit-mul_large (suc n) (suc i) a h =
    let half : a * 2 ^ suc n / 2 ≡ a * 2 ^ n = omega (arith, ap (λ (t : ℕ). a * t) (pow-suc 2 n)) in
    let index : suc i - suc n ≡ i - n = omega arith in
    rw (half, index) (test_bit-mul_large n i a (omega arith))

-- A left shift moves the bits up.
pub test_bit-shift :
    (n i a : ℕ) → test_bit (a * 2 ^ n) i ≡ (if leb n i then test_bit a (i - n) else 0)
test_bit-shift n i a = ground (arith, test_bit-mul_large n i a, test_bit-mul_small n i a)

pub test_bit-bit_or : (i a b : ℕ) → test_bit (bit_or a b) i ≡ max (test_bit a i) (test_bit b i)
unfolding test_bit
test_bit-bit_or zero a b = omega (arith, bit_or_step a b)
test_bit-bit_or (suc i) a b =
    let half : bit_or a b / 2 ≡ bit_or (a / 2) (b / 2) = omega (arith, bit_or_step a b) in
    rw half (test_bit-bit_or i (a / 2) (b / 2))

-- The complement in a word of `w` bits turns each of them over.
pub test_bit-complement :
    (w i a : ℕ) → i < w → a < 2 ^ w → test_bit (2 ^ w - 1 - a) i + test_bit a i ≡ 1
unfolding test_bit
test_bit-complement zero i a lt h = absurd (omega arith)
test_bit-complement (suc w) zero a lt h = omega (arith, pow-suc 2 w)
test_bit-complement (suc w) (suc i) a lt h =
    let half : (2 ^ suc w - 1 - a) / 2 ≡ 2 ^ w - 1 - a / 2 = omega (arith, pow-suc 2 w) in
    rw half (test_bit-complement w i (a / 2) (omega arith) (omega (arith, pow-suc 2 w)))

-- The low bits of a number are all zero exactly when a power of two divides it.
pub low_bits-zero : (n a : ℕ) → ((i : ℕ) → i < n → test_bit a i ≡ 0) → a % 2 ^ n ≡ 0
unfolding test_bit
low_bits-zero zero a h = omega arith
low_bits-zero (suc n) a h = omega (
  arith,
  mod_half a n,
  low_bits-zero n (a / 2) (λ i lt. h (suc i) (omega arith)),
  h 0 (omega arith),
)

pub zero-low_bits : (n a i : ℕ) → a % 2 ^ n ≡ 0 → i < n → test_bit a i ≡ 0
unfolding test_bit
zero-low_bits zero a i h lt = absurd (omega arith)
zero-low_bits (suc n) a zero h lt = omega (arith, mod_half a n)
zero-low_bits (suc n) a (suc i) h lt =
    zero-low_bits n (a / 2) i (omega (arith, mod_half a n)) (omega arith)
