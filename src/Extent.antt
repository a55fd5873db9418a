-- ===== src/Extent.antt =====
-- impl/extent.h: ranges, block arithmetic, media and extents.
-- An off64_t is its two's complement word below 2 ^ 64, so a negative value is 2 ^ 63 or more.
pub mod Bitmap
pub mod Rounding
mod Tests
use fsview.Base.{
  ℕ, ◌+◌, ◌-◌, ◌*◌, ◌/◌, ◌%◌, ◌^◌, Bool, Option, none, some, List, bit_and, if◌then◌else◌, ◌==◌,
}
use fsview.Base.Words.{add64, sub64, lnot64, is_negative}

pub record Range : Type 0 where
  pub offset : ℕ
  pub length : ℕ

pub translate : Range → ℕ → Range
translate r by = record { offset = add64 r.offset by; length = r.length }

pub translate_between : Range → ℕ → ℕ → Range
unfolding translate
translate_between r from to = translate r (sub64 to from)

-- The standard 512-byte sector.
abbrev pub mapper_bs : ℕ
mapper_bs = 512

-- `( pos + blkSz - 1 ) & ~( blkSz - 1 )`
unfoldable pub round_up : ℕ → ℕ → ℕ
round_up pos blk_sz = bit_and (sub64 (add64 pos blk_sz) 1) (lnot64 (sub64 blk_sz 1))

unfoldable pub padding : ℕ → ℕ → ℕ
padding pos blk_sz = sub64 (round_up pos blk_sz) pos

-- Signed `/` by a positive block size: it truncates towards zero.
abbrev pub sdiv64 : ℕ → ℕ → ℕ
sdiv64 a b = if is_negative a then sub64 0 ((2 ^ 64 - a) / b) else a / b

unfoldable pub first_blk : ℕ → ℕ → ℕ
first_blk block_size start = sdiv64 start block_size

unfoldable pub last_blk : ℕ → ℕ → ℕ
unfolding first_blk
last_blk block_size end_of = first_blk block_size (sub64 end_of 1)

-- `none` is the call of abort().
unfoldable pub first_blk_of : ℕ → Range → Option ℕ
unfolding first_blk
first_blk_of block_size r =
    if r.offset % block_size == 0 then some (first_blk block_size r.offset) else none

unfoldable pub last_blk_of : ℕ → Range → ℕ
unfolding last_blk
last_blk_of block_size r = last_blk block_size (add64 r.offset r.length)

-- What the virtual members of a Medium answer. `contents` is the memory behind data(), `none` for a
-- null pointer.
pub record Medium : Type 0 where
  pub contents : Option (List ℕ)
  pub block_device : ℕ
  pub is_direct_device : Bool
  pub is_aligned : Bool
  pub id : ℕ
  pub block_size : ℕ

-- The media by pointer, as they are when they are read: an extent holds a pointer, so what is
-- written shows every change made to its medium before.
abbrev pub Media : Type 0
Media = ℕ → Medium

-- `medium` is a pointer, `none` for null.
pub record Extent : Type 0 where
  pub offset : ℕ
  pub length : ℕ
  pub medium : Option ℕ

pub range_of : Extent → Range
range_of x = record { offset = x.offset; length = x.length }

unfoldable pub zero_extent : ℕ → Extent
zero_extent len = record { offset = 0; length = len; medium = none }
