-- ===== src/Extent/Rounding.antt =====
-- The block arithmetic of impl/extent.h, for block sizes that are powers of two.
use Prim.Native.Nat.{ℕ, suc, ◌+◌, ◌-◌, ◌*◌, ◌/◌, ◌%◌, ◌^◌, ◌≤◌, ◌<◌, bit_and}
use native.Mathlib.Nat.{pow-suc, one-le-pow, pow-le-pow_right, mul-mod_left}
use fsview.Base.{◌≡◌, ap, arith, some}
use fsview.Base.Bits.{bit_and_high}
use fsview.Base.Words.{add64, sub64, lnot64}
use fsview.Extent.{Range, round_up, padding, first_blk_of, last_blk_of}

-- A power of two below the top bit.
pub pow_bounds : (k : ℕ) → k < 63 → (1 ≤ 2 ^ k) × (2 ^ k * 2 ≤ 2 ^ 63)
pow_bounds k h = (
  one-le-pow k 2 (omega arith),
  omega (arith, pow-suc 2 k, pow-le-pow_right {n = 2} (omega arith) {i = suc k} {j = 63} h),
)

-- The mask `~( 2 ^ k - 1 )` clears the `k` low bits.
clear_low : (k a : ℕ) → k < 63 → a < 2 ^ 64 → bit_and a (2 ^ 64 - 2 ^ k) ≡ a / 2 ^ k * 2 ^ k
clear_low k a hk h = rw width (bit_and_high k (64 - k) a (rw (← width) h))
  where
    width : 2 ^ 64 ≡ 2 ^ (k + (64 - k))
    width = let e : 64 ≡ k + (64 - k) = omega arith in ap (λ (t : ℕ). 2 ^ t) e

pub round_up_div :
    (k pos : ℕ) → k < 63 → pos < 2 ^ 63 → round_up pos (2 ^ k) ≡ (pos + 2 ^ k - 1) / 2 ^ k * 2 ^ k
unfolding round_up
round_up_div k pos hk h =
    let (lo, hi) = pow_bounds k hk in
    let sum : sub64 (add64 pos (2 ^ k)) 1 ≡ pos + 2 ^ k - 1 = omega arith in
    let mask : lnot64 (sub64 (2 ^ k) 1) ≡ 2 ^ 64 - 2 ^ k = omega arith in
    rw (sum, mask) (clear_low k (pos + 2 ^ k - 1) hk (omega arith))

mul_div : (d a : ℕ) → 1 ≤ d → (a / d * d ≤ a) × (a < a / d * d + d)
mul_div d a h = (grind arith, grind arith)

-- Rounding up to a power of two gives the least multiple of the block size that is not below the
-- position.
pub round_up_least :
    (k pos : ℕ)
    → k < 63
    → pos < 2 ^ 63
    → (round_up pos (2 ^ k) % 2 ^ k ≡ 0)
      × (pos ≤ round_up pos (2 ^ k))
      × (round_up pos (2 ^ k) < pos + 2 ^ k)
round_up_least k pos hk h = rw (round_up_div k pos hk h) (
  mul-mod_left ((pos + 2 ^ k - 1) / 2 ^ k) (2 ^ k),
  omega (arith, pow_bounds k hk, mul_div (2 ^ k) (pos + 2 ^ k - 1)),
  omega (arith, pow_bounds k hk, mul_div (2 ^ k) (pos + 2 ^ k - 1)),
)

-- Padding brings a position to the next block boundary, with less than a block.
pub padding_aligns :
    (k pos : ℕ)
    → k < 63
    → pos < 2 ^ 63
    → ((pos + padding pos (2 ^ k)) % 2 ^ k ≡ 0) × (padding pos (2 ^ k) < 2 ^ k)
unfolding padding
padding_aligns k pos hk h =
    let (aligned, above, near) = round_up_least k pos hk h in
    let sum : pos + sub64 (round_up pos (2 ^ k)) pos ≡ round_up pos (2 ^ k) =
      omega (arith, pow_bounds k hk) in
    (rw sum aligned, omega (arith, pow_bounds k hk))

-- The blocks of a range that starts on a boundary run from its first to its last byte, and
-- first_blk_of answers for no other range.
pub blocks_span :
    (bs : ℕ) (r : Range)
    → 1 ≤ bs
    → 1 ≤ r.length
    → r.offset + r.length < 2 ^ 63
    → r.offset % bs ≡ 0
    → (first_blk_of bs r ≡ some (r.offset / bs))
      × (r.offset / bs * bs ≡ r.offset)
      × (last_blk_of bs r * bs < r.offset + r.length)
      × (r.offset + r.length ≤ last_blk_of bs r * bs + bs)
unfolding first_blk_of last_blk_of
blocks_span bs r hbs hlen small aligned = (
  ground arith,
  grind arith,
  rw last (omega (arith, mul_div bs (r.offset + r.length - 1) hbs)),
  rw last (omega (arith, mul_div bs (r.offset + r.length - 1) hbs)),
)
  where
    last : last_blk_of bs r ≡ (r.offset + r.length - 1) / bs
    last = ground arith
