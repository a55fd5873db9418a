-- ===== src/Text/Scan.antt =====
-- Checks over all bytes by evaluation, and bits that do not overlap.
use fsview.Base.{
  ℕ, zero, suc, ◌+◌, ◌*◌, ◌/◌, ◌^◌, ◌<◌, ◌≤◌, ◌≡◌, Bool, true, ◌&&◌, arith, bit_or, eq_or_ne, inl,
  inr,
}
use fsview.Base.Digits.{bit_or_step}
use fsview.Base.Bits.{bit_or-zero, mul-pow-suc}
use native.Mathlib.Nat.{pow-suc}

-- Whether a test passes for `start` and the values after it.
unfoldable pub passes : (ℕ → Bool) → ℕ → ℕ → Bool
passes test start zero = true
passes test start (suc count) = test start && passes test (suc start) count

pub passes_each :
    (test : ℕ → Bool) (start count : ℕ)
    → passes test start count ≡ true
    → (x : ℕ) → start ≤ x
    → x < start + count
    → test x ≡ true
unfolding passes
passes_each test start zero e x le lt = absurd (omega arith)
passes_each test start (suc count) e x le lt = elim (eq_or_ne start x) [
  | inl same ↦ ground arith
  | inr ne ↦ passes_each test (suc start) count (ground arith) x (omega arith) (omega arith)
]

-- The bits of a multiple of 2 ^ k and of a number below it do not overlap.
pub bit_or_apart : (k q r : ℕ) → r < 2 ^ k → bit_or (q * 2 ^ k) r ≡ q * 2 ^ k + r
bit_or_apart zero q r h =
    let none_left : r ≡ 0 = omega arith in rw (none_left, bit_or-zero) (omega arith)
bit_or_apart (suc k) q r h = ground (
  arith,
  bit_or_step (q * 2 ^ suc k) r,
  mul-pow-suc q k,
  bit_or_apart k q (r / 2) (omega (arith, pow-suc 2 k)),
)
