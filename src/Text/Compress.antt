-- ===== src/Text/Compress.antt =====
-- CharType::compress: sizes, bounds, and reading the characters back.
use fsview.Base.{
  ℕ, ◌+◌, ◌*◌, ◌/◌, ◌^◌, ◌<◌, ◌≤◌, ◌≡◌, ◌∙◌, refl, ap, arith, min, List, [], ◌∷◌, length, le_or_lt,
  inl, inr, ◌⊎◌, take, All, length-append, length-take,
}
use native.Mathlib.Nat.{mul-le-mul_right}
use fsview.Text.{Unicode, Pack, char_ucs2, char_lfn, compress, compress_into}

-- Reading pairs of bytes, the high byte first and the low byte first.
unfoldable pub read_ucs2 : List ℕ → Unicode
read_ucs2 [] = []
read_ucs2 (hi ∷ []) = []
read_ucs2 (hi ∷ lo ∷ rest) = (hi * 256 + lo) ∷ read_ucs2 rest

unfoldable pub read_lfn : List ℕ → Unicode
read_lfn [] = []
read_lfn (lo ∷ []) = []
read_lfn (lo ∷ hi ∷ rest) = (hi * 256 + lo) ∷ read_lfn rest

-- Joliet names of characters below 2 ^ 16 can be read back.
pub read_ucs2-compress :
    (s : Unicode) → All (λ c. c < 2 ^ 16) s → read_ucs2 (compress char_ucs2 s) ≡ s
unfolding read_ucs2 compress char_ucs2
read_ucs2-compress [] h = refl
read_ucs2-compress (c ∷ cs) (hc, h) = ground (arith, read_ucs2-compress cs h)

-- Long names of FAT32 of characters below 2 ^ 16 can be read back.
pub read_lfn-compress : (s : Unicode) → All (λ c. c < 2 ^ 16) s → read_lfn (compress char_lfn s) ≡ s
unfolding read_lfn compress char_lfn
read_lfn-compress [] h = refl
read_lfn-compress (c ∷ cs) (hc, h) = ground (arith, read_lfn-compress cs h)

-- A packer sinks as many bytes for a character as it says.
abbrev pub IsSized : Pack → Type 0
IsSized pack = (c : ℕ) → length (pack.pack_char c) ≡ pack.char_size

length-compress :
    (pack : Pack) (s : Unicode)
    → IsSized pack
    → length (compress pack s) ≡ length s * pack.char_size
unfolding compress
length-compress pack [] h = omega arith
length-compress pack (c ∷ cs) h =
    length-append (pack.pack_char c) (compress pack cs)
    ∙ grind (arith, h c, length-compress pack cs h)

-- With a packer that sinks as many bytes for a character as it says, and one at least, packing
-- into a buffer writes no more than its size, writes exactly the characters that it counts, and
-- stops early only where the next character has no room.
pub compress_into_bounds :
    (pack : Pack) (size : ℕ) (s : Unicode)
    → IsSized pack
    → 0 < pack.char_size
    → (length ((compress_into pack size s).0) ≤ size)
      × ((compress_into pack size s).0 ≡ compress pack (take ((compress_into pack size s).1) s))
      × (((compress_into pack size s).1 ≡ length s)
          ⊎ (size < length ((compress_into pack size s).0) + pack.char_size))
unfolding compress_into
compress_into_bounds pack size s h pos =
    let n : ℕ = min (length s) (size / pack.char_size) in
    let written : length (compress pack (take n s)) ≡ n * pack.char_size =
      length-compress pack (take n s) h
      ∙ ap (λ k. k * pack.char_size) (length-take n s ∙ omega arith) in
    let fits : size / pack.char_size * pack.char_size ≤ size = omega arith in
    let most : size < size / pack.char_size * pack.char_size + pack.char_size = omega arith in
    let less : n * pack.char_size ≤ size / pack.char_size * pack.char_size =
      mul-le-mul_right pack.char_size (omega arith) in
    (
      omega (arith, written, less, fits),
      refl,
      elim (le_or_lt (length s) (size / pack.char_size)) [
        | inl all ↦ inl (omega arith)
        | inr part ↦
            let full : n ≡ size / pack.char_size = omega arith in inr (rw (written, full) most)
      ],
    )
