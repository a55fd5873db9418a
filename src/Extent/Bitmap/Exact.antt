-- ===== src/Extent/Bitmap/Exact.antt =====
-- A bitmap that one chunk holds.
use mathlib.Core.List.{append_assoc, append-nil}
use fsview.Base.{
  ℕ, zero, suc, ◌+◌, ◌-◌, ◌*◌, ◌/◌, ◌%◌, ◌^◌, ◌≤◌, ◌<◌, min, ◌≡◌, refl, ap, sym, ◌∙◌, arith, Bool,
  true, false, not, List, [], ◌∷◌, ◌++◌, leb, ltb, ◌==◌, take, drop, replicate, length,
  length-append, length-replicate, take-append_left, le_or_lt, eq_or_ne, inl, inr, Bool-cases, ◌≢◌,
}
use fsview.Base.Below.{all_below, all_below_at, same_bool, same_bool-eq}
use fsview.Extent.Bitmap.{
  BitsMedium, fill, write_chunks, write_to_fd, is_used, byte_at, after_ff, ff_part, trailing_byte,
}

byte_at-replicate : (n v i : ℕ) (rest : List ℕ) → i < n → byte_at (replicate n v ++ rest) i ≡ v
byte_at-replicate zero v i rest h = absurd (omega arith)
byte_at-replicate (suc n) v zero rest h = refl
byte_at-replicate (suc n) v (suc i) rest h = byte_at-replicate n v i rest (omega arith)

byte_at-append_right :
    (n v i : ℕ) (rest : List ℕ) → byte_at (replicate n v ++ rest) (n + i) ≡ byte_at rest i
byte_at-append_right zero v i rest = let e : zero + i ≡ i = omega arith in ap (byte_at rest) e
byte_at-append_right (suc n) v i rest =
    let e : suc n + i ≡ suc (n + i) = omega arith in rw e (byte_at-append_right n v i rest)

byte_at-zeros : (n i : ℕ) → byte_at (replicate n 0) i ≡ 0
byte_at-zeros zero i = refl
byte_at-zeros (suc n) zero = refl
byte_at-zeros (suc n) (suc i) = byte_at-zeros n i

-- The byte that is used in part has its first `k` bits set.
partial_byte :
    (k j : ℕ) → k < 8 → j < 8 → not (0xff00 / 2 ^ k % 256 / 2 ^ (7 - j) % 2 == 0) ≡ ltb j k
partial_byte k j hk hj =
    let right =
      λ (k : ℕ) (j : ℕ). same_bool (not (0xff00 / 2 ^ k % 256 / 2 ^ (7 - j) % 2 == 0)) (ltb j k) in
    let row = all_below_at 8 (λ k. all_below 8 (right k)) refl k hk in
    same_bool-eq (not (0xff00 / 2 ^ k % 256 / 2 ^ (7 - j) % 2 == 0)) (ltb j k)
      (all_below_at 8 (right k) row j hj)

-- In the first chunk the bytes 0xff are written in either mode.
first_part :
    (m : BitsMedium) (chunk : List ℕ) (size : ℕ)
    → ff_part m chunk 0 (m.bits / 8) ++ (after_ff m (size - m.bits / 8) ++ drop size chunk)
      ≡ replicate (m.bits / 8) 255 ++ (after_ff m (size - m.bits / 8) ++ drop size chunk)
first_part m chunk size = elim (Bool-cases m.skip_idle) [ inl e ↦ rw e refl | inr e ↦ rw e refl ]

-- What fill leaves of the first chunk where the bitmap ends within it.
first_chunk :
    (m : BitsMedium) (chunk : List ℕ) (size : ℕ)
    → m.bits / 8 < size
    → fill m chunk 0 size
      ≡ replicate (m.bits / 8) 255 ++ (after_ff m (size - m.bits / 8) ++ drop size chunk)
unfolding fill
first_chunk m chunk size h =
    let inside : ltb (m.bits / 8 - 0) size ≡ true = ground arith in
    let least : min (m.bits / 8 - 0) size ≡ m.bits / 8 = omega arith in
    let started : leb 0 (m.bits / 8) ≡ true = ground arith in
    let ends : ltb (m.bits / 8) size ≡ true = ground arith in
    rw (least, started, ends) (first_part m chunk size)

-- A byte as a reader sees it.
abbrev bit_of : ℕ → ℕ → Bool
bit_of b j = not (b / 2 ^ (7 - j) % 2 == 0)

full_byte : (j : ℕ) → j < 8 → bit_of 255 j ≡ true
full_byte j h = all_below_at 8 (bit_of 255) refl j h

clear_byte : (j : ℕ) → j < 8 → bit_of 0 j ≡ false
clear_byte j h =
    same_bool-eq (bit_of 0 j) false (all_below_at 8 (λ j. same_bool (bit_of 0 j) false) refl j h)

-- The bytes after those that are full.
used_after :
    (m : BitsMedium) (left d j : ℕ)
    → j < 8
    → bit_of (byte_at (after_ff m left) d) j ≡ ltb (8 * (m.bits / 8 + d) + j) m.bits
used_after m left d j hj = elim (eq_or_ne (m.bits % 8) 0) [
  | inl e ↦
      let none_left : (m.bits % 8 == 0) ≡ true = ground arith in
      let above : ltb (8 * (m.bits / 8 + d) + j) m.bits ≡ false = ground arith in
      rw (none_left, byte_at-zeros left d, above) (clear_byte j hj)
  | inr ne ↦ let some_left : (m.bits % 8 == 0) ≡ false = ground arith in rw some_left (used_in d ne)
]
  where
    used_in :
        (d : ℕ)
        → m.bits % 8 ≢ 0
        → bit_of (byte_at (trailing_byte m ∷ replicate (left - 1) 0) d) j
          ≡ ltb (8 * (m.bits / 8 + d) + j) m.bits
    used_in zero ne =
        let same : ltb (8 * (m.bits / 8 + 0) + j) m.bits ≡ ltb j (m.bits % 8) = ground arith in
        rw same (partial_byte (m.bits % 8) j (omega arith) hj)
    used_in (suc d) ne =
        let above : ltb (8 * (m.bits / 8 + suc d) + j) m.bits ≡ false = ground arith in
        rw (byte_at-zeros (left - 1) d, above) (clear_byte j hj)

used_bitmap :
    (m : BitsMedium) (left i : ℕ)
    → is_used (replicate (m.bits / 8) 255 ++ after_ff m left) i ≡ ltb i m.bits
used_bitmap m left i = elim (le_or_lt (m.bits / 8) (i / 8)) [
  | inl le ↦
      let at : i / 8 ≡ m.bits / 8 + (i / 8 - m.bits / 8) = omega arith in
      let split : i ≡ 8 * (m.bits / 8 + (i / 8 - m.bits / 8)) + i % 8 = omega arith in
      ap (λ k. bit_of (byte_at (replicate (m.bits / 8) 255 ++ after_ff m left) k) (i % 8)) at
      ∙ ap (λ b. bit_of b (i % 8))
          (byte_at-append_right (m.bits / 8) 255 (i / 8 - m.bits / 8) (after_ff m left))
      ∙ used_after m left (i / 8 - m.bits / 8) (i % 8) (omega arith)
      ∙ ap (λ k. ltb k m.bits) (sym split)
  | inr lt ↦
      let below : ltb i m.bits ≡ true = ground arith in
      rw (byte_at-replicate (m.bits / 8) 255 (i / 8) (after_ff m left) lt, below)
        (full_byte (i % 8) (omega arith))
]

length-after_ff : (m : BitsMedium) (left : ℕ) → 0 < left → length (after_ff m left) ≡ left
length-after_ff m left h = elim (Bool-cases (m.bits % 8 == 0)) [
  | inl e ↦ rw e (length-replicate {A = ℕ} left 0)
  | inr e ↦ rw e (omega (arith, length-replicate {A = ℕ} (left - 1) 0))
]

-- The loop ends where nothing is left.
pub nothing_left :
    (m : BitsMedium) (fuel next : ℕ) (chunk : List ℕ) → write_chunks m fuel next 0 chunk ≡ []
unfolding write_chunks
nothing_left m zero next chunk = refl
nothing_left m (suc fuel) next chunk = refl

one_chunk :
    (m : BitsMedium) (bytes : ℕ) (chunk : List ℕ)
    → m.bits / 8 < bytes
    → bytes ≤ m.bits_chunk_size
    → write_to_fd m 0 bytes chunk ≡ replicate (m.bits / 8) 255 ++ after_ff m (bytes - m.bits / 8)
unfolding write_to_fd write_chunks
one_chunk m zero chunk hb hc = absurd (omega arith)
one_chunk m (suc bytes) chunk hb hc =
    let whole : min (suc bytes) m.bits_chunk_size ≡ suc bytes = omega arith in
    let done : suc bytes - suc bytes ≡ 0 = omega arith in
    let busy : (suc bytes == 0) ≡ false = ground arith in
    let full = replicate (m.bits / 8) 255 in
    let tail = after_ff m (suc bytes - m.bits / 8) in
    let long : length (full ++ tail) ≡ suc bytes = omega (
      arith,
      length-append full tail,
      length-replicate {A = ℕ} (m.bits / 8) 255,
      length-after_ff m (suc bytes - m.bits / 8) (omega arith),
    ) in
    rw
      (
        whole,
        done,
        busy,
        nothing_left m bytes (0 + m.bits_chunk_size) (fill m chunk 0 (suc bytes)),
        first_chunk m chunk (suc bytes) hb,
      )
      (append-nil (take (suc bytes) (full ++ (tail ++ drop (suc bytes) chunk)))
        ∙ ap (take (suc bytes)) (sym (append_assoc full tail (drop (suc bytes) chunk)))
        ∙ take-append_left (suc bytes) (full ++ tail) (drop (suc bytes) chunk) long)

-- Where the range that is written starts at 0, is not longer than the chunk, and reaches past the last
-- whole byte of the bitmap, so that the bitmap ends within the range, as many bytes are written as the range is long, and block i reads as used exactly
-- when i is below the number of bits, whatever the buffer held before.
pub write_to_fd-is_used :
    (m : BitsMedium) (bytes : ℕ) (chunk : List ℕ) (i : ℕ)
    → m.bits / 8 < bytes
    → bytes ≤ m.bits_chunk_size
    → (length (write_to_fd m 0 bytes chunk) ≡ bytes)
      × (is_used (write_to_fd m 0 bytes chunk) i ≡ ltb i m.bits)
write_to_fd-is_used m bytes chunk i hb hc = rw (one_chunk m bytes chunk hb hc) (
  omega (
    arith,
    length-append (replicate (m.bits / 8) 255) (after_ff m (bytes - m.bits / 8)),
    length-replicate {A = ℕ} (m.bits / 8) 255,
    length-after_ff m (bytes - m.bits / 8) (omega arith),
  ),
  used_bitmap m (bytes - m.bits / 8) i,
)
