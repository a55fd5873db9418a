-- ===== src/Extent/Bitmap.antt =====
-- RuleMedium::writeToFd and BitsMedium of impl/extent.h and impl/extent.cpp: a bitmap with the lowest
-- `bits` bits set, produced chunk by chunk in one buffer. What the buffer holds when memalign returns
-- it is `chunk`, an argument. Offsets and lengths are not negative.
pub mod Exact
pub mod Repeat
use fsview.Base.{
  ℕ, zero, suc, ◌+◌, ◌-◌, ◌*◌, ◌/◌, ◌%◌, ◌^◌, min, Bool, true, false, not, ◌&&◌, List, [], ◌∷◌,
  ◌++◌, if◌then◌else◌, leb, ltb, ◌==◌, take, drop, replicate, length,
}

pub record BitsMedium : Type 0 where
  pub skip_idle : Bool
  pub bits_chunk_size : ℕ
  pub bits : ℕ

abbrev pub new_bits : Bool → ℕ → ℕ → BitsMedium
new_bits single_extent chunk bits = record {
  skip_idle = single_extent;
  bits_chunk_size = chunk;
  bits = bits;
}

abbrev pub reserve_bits : ℕ → BitsMedium → BitsMedium
reserve_bits bits m = record m { bits = bits }

abbrev pub byte_count : BitsMedium → ℕ
byte_count m = (m.bits + 7) / 8

abbrev pub count_of_ff : BitsMedium → ℕ
count_of_ff m = m.bits / 8

abbrev pub has_trailing_byte : BitsMedium → Bool
has_trailing_byte m = not (m.bits % 8 == 0)

abbrev pub trailing_byte : BitsMedium → ℕ
trailing_byte m = 0xff00 / 2 ^ (m.bits % 8) % 256

-- What follows the bytes 0xff up to the end of the part.
abbrev pub after_ff : BitsMedium → ℕ → List ℕ
after_ff m left =
    if has_trailing_byte m then trailing_byte m ∷ replicate (left - 1) 0 else replicate left 0

-- The first `n_fill` bytes of the buffer, which are left alone in a later chunk when idle space is
-- skipped.
abbrev pub ff_part : BitsMedium → List ℕ → ℕ → ℕ → List ℕ
ff_part m chunk offset n_fill =
    if m.skip_idle && not (offset == 0) then take n_fill chunk else replicate n_fill 255

abbrev pub fill_part : BitsMedium → List ℕ → ℕ → ℕ → ℕ → List ℕ
fill_part m chunk offset size n_fill =
    if leb offset (count_of_ff m) && ltb n_fill size
    then ff_part m chunk offset n_fill ++ (after_ff m (size - n_fill) ++ drop size chunk)
    else chunk

-- The buffer after the call.
unfoldable pub fill : BitsMedium → List ℕ → ℕ → ℕ → List ℕ
fill m chunk offset size = fill_part m chunk offset size (min (count_of_ff m - offset) size)

-- The loop of writeToFd: the bytes that reach the file, while `left` of them are to come.
unfoldable pub write_chunks : BitsMedium → ℕ → ℕ → ℕ → List ℕ → List ℕ
unfolding fill
write_chunks m zero next left chunk = []
write_chunks m (suc fuel) next left chunk =
    let part = min left m.bits_chunk_size in
    let chunk' = fill m chunk next part in
    let rest = write_chunks m fuel (next + m.bits_chunk_size) (left - part) chunk' in
    if left == 0 then [] else take part chunk' ++ rest

-- Every turn writes a byte at least, so `bytes` turns are enough.
unfoldable pub write_to_fd : BitsMedium → ℕ → ℕ → List ℕ → List ℕ
unfolding write_chunks
write_to_fd m offset bytes chunk = write_chunks m bytes offset bytes chunk

-- How a reader of the allocation file sees block i: the most significant bit of a byte comes first.
abbrev pub byte_at : List ℕ → ℕ → ℕ
byte_at [] i = 0
byte_at (b ∷ bytes) zero = b
byte_at (b ∷ bytes) (suc i) = byte_at bytes i

abbrev pub is_used : List ℕ → ℕ → Bool
is_used bytes i = not (byte_at bytes (i / 8) / 2 ^ (7 - i % 8) % 2 == 0)
