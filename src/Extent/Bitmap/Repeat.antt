-- ===== src/Extent/Bitmap/Repeat.antt =====
-- A bitmap that ends within the first of several chunks.
use mathlib.Core.List.{append-nil}
use fsview.Base.{
  ℕ, zero, suc, ◌+◌, ◌-◌, ◌/◌, ◌≤◌, ◌<◌, min, ◌≡◌, refl, ap, sym, ◌∙◌, arith, false, List, ◌++◌,
  leb, ◌==◌, take,
}
use fsview.Extent.Bitmap.{BitsMedium, fill, write_chunks, write_to_fd}
use fsview.Extent.Bitmap.Exact.{nothing_left}

-- A turn of the loop.
turn :
    (m : BitsMedium) (fuel next left : ℕ) (chunk : List ℕ)
    → 0 < fuel
    → 0 < left
    → m.bits_chunk_size ≤ left
    → write_chunks m fuel next left chunk
      ≡ take m.bits_chunk_size (fill m chunk next m.bits_chunk_size)
        ++ write_chunks m
            (fuel - 1)
            (next + m.bits_chunk_size)
            (left - m.bits_chunk_size)
            (fill m chunk next m.bits_chunk_size)
unfolding write_chunks
turn m zero next left chunk hf hl hc = absurd (omega arith)
turn m (suc fuel) next left chunk hf hl hc =
    let part : min left m.bits_chunk_size ≡ m.bits_chunk_size = omega arith in
    let busy : (left == 0) ≡ false = ground arith in
    let fuel_left : suc fuel - 1 ≡ fuel = omega arith in rw (part, busy, fuel_left) refl

-- A chunk behind the end of the bitmap leaves the buffer as it is.
fill-past :
    (m : BitsMedium) (chunk : List ℕ) (next size : ℕ)
    → m.bits / 8 < next
    → fill m chunk next size ≡ chunk
unfolding fill
fill-past m chunk next size h =
    let past : leb next (m.bits / 8) ≡ false = ground arith in rw past refl

-- Where the bitmap ends within the first chunk and two chunks are written, the second one repeats the
-- first one, although no bit of it is set.
pub write_to_fd-repeats :
    (m : BitsMedium) (chunk : List ℕ)
    → m.bits / 8 < m.bits_chunk_size
    → write_to_fd m 0 (m.bits_chunk_size + m.bits_chunk_size) chunk
      ≡ write_to_fd m 0 m.bits_chunk_size chunk ++ write_to_fd m 0 m.bits_chunk_size chunk
unfolding write_to_fd
write_to_fd-repeats m chunk h =
    let size = m.bits_chunk_size in
    let first = fill m chunk 0 size in
    let same = fill-past m first (0 + size) size (omega arith) in
    let gone : size - size ≡ 0 = omega arith in
    let half : size + size - size ≡ size = omega arith in
    let one : write_chunks m size 0 size chunk ≡ take size first =
      turn m size 0 size chunk (omega arith) (omega arith) (omega arith)
      ∙ ap (λ left. take size first ++ write_chunks m (size - 1) (0 + size) left first) gone
      ∙ ap (λ rest. take size first ++ rest) (nothing_left m (size - 1) (0 + size) first)
      ∙ append-nil (take size first) in
    let two : write_chunks m (size + size - 1) (0 + size) size first ≡ take size first =
      turn m (size + size - 1) (0 + size) size first (omega arith) (omega arith) (omega arith)
      ∙ ap
          (λ c.
            take size c ++ write_chunks m (size + size - 1 - 1) (0 + size + size) (size - size) c)
          same
      ∙ ap
          (λ left.
            take size first ++ write_chunks m (size + size - 1 - 1) (0 + size + size) left first)
          gone
      ∙ ap (λ rest. take size first ++ rest)
          (nothing_left m (size + size - 1 - 1) (0 + size + size) first)
      ∙ append-nil (take size first) in
    turn m (size + size) 0 (size + size) chunk (omega arith) (omega arith) (omega arith)
    ∙ ap (λ left. take size first ++ write_chunks m (size + size - 1) (0 + size) left first) half
    ∙ ap (λ rest. take size first ++ rest) two
    ∙ ap (λ t. t ++ t) (sym one)
