-- ===== src/Fat/LongName/Gather.antt =====
-- A driver that joins the slices of a long name reads the name that was written.
use mathlib.Core.List.{append-nil}
use fsview.Base.{
  ℕ, zero, suc, ◌+◌, ◌-◌, ◌*◌, ◌/◌, ◌%◌, ◌^◌, ◌≤◌, ◌<◌, ◌≡◌, refl, ap, sym, ◌∙◌, arith, true, false,
  some, none, bit_or, List, [], ◌∷◌, ◌++◌, length, take, drop, replicate, length-append,
  length-replicate, All, if◌then◌else◌, leb, ltb, ◌==◌, eq_or_ne, inl, inr,
}
use fsview.Text.{Unicode, compress, char_lfn}
use fsview.Fat.LongName.{LongNameEntry, slice_sz, scatter_ucs2, copy_in, slices_down, long_entries}

-- The first entry on disk has the last slice.
abbrev pub gather : List LongNameEntry → List ℕ
gather [] = []
gather (e ∷ es) = gather es ++ (e.buf1 ++ (e.buf2 ++ e.buf3))

-- UCS-2 in pairs of bytes, the least significant one first, up to a zero or the end.
abbrev pub until_zero : List ℕ → Unicode
until_zero [] = []
until_zero (low ∷ []) = []
until_zero (low ∷ high ∷ bytes) =
    let rest = until_zero bytes in if low + 256 * high == 0 then [] else (low + 256 * high) ∷ rest

unfoldable pub IsUcs2 : ℕ → Type 0
IsUcs2 c = (0 < c) × (c < 2 ^ 16)

length-compress : (s : Unicode) → length (compress char_lfn s) ≡ 2 * length s
unfolding compress char_lfn
length-compress [] = refl
length-compress (c ∷ s) = omega (arith, length-compress s)

-- What follows the name is nothing, or starts with a zero.
read_name :
    (s : Unicode) (tail : List ℕ)
    → All IsUcs2 s
    → until_zero tail ≡ []
    → until_zero (compress char_lfn s ++ tail) ≡ s
unfolding compress char_lfn IsUcs2
read_name [] tail h e = e
read_name (c ∷ s) tail ((pos, small), h) e =
    let joined : c % 256 + 256 * (c / 256 % 256) ≡ c = omega arith in
    let not_end : (c == 0) ≡ false = ground arith in rw (joined, not_end, read_name s tail h e) refl

take-add : (m n : ℕ) (xs : List ℕ) → take (m + n) xs ≡ take m xs ++ take n (drop m xs)
take-add zero n xs = let e : zero + n ≡ n = omega arith in ap (λ k. take k xs) e
take-add (suc m) n [] = let e : suc m + n ≡ suc (m + n) = omega arith in rw (e, take-nil n) refl
  where
    take-nil : (n : ℕ) → take {A = ℕ} n [] ≡ []
    take-nil zero = refl
    take-nil (suc n) = refl
take-add (suc m) n (x ∷ xs) =
    let e : suc m + n ≡ suc (m + n) = omega arith in rw e (ap (λ t. x ∷ t) (take-add m n xs))

take-all : (xs : List ℕ) → take (length xs) xs ≡ xs
take-all [] = refl
take-all (x ∷ xs) = ap (λ t. x ∷ t) (take-all xs)

-- The parts of a slice are the slice.
slice_parts :
    (xs : List ℕ)
    → take 10 xs ++ (take 12 (drop 10 xs) ++ take 4 (drop 12 (drop 10 xs))) ≡ take 26 xs
slice_parts xs = sym (take-add 10 16 xs ∙ ap (λ t. take 10 xs ++ t) (take-add 12 4 (drop 10 xs)))

copy_in-slice :
    (temp : List ℕ) (crc before : ℕ)
    → before * slice_sz + slice_sz ≤ length temp
    → (e : LongNameEntry) × (copy_in temp crc (suc before) ≡ some e)
      × (e.buf1 ++ (e.buf2 ++ e.buf3) ≡ take 26 (drop (before * slice_sz) temp))
unfolding copy_in
copy_in-slice temp crc before fits =
    let chunk = drop (before * slice_sz) temp in
    let there : leb (before * slice_sz + slice_sz) (length temp) ≡ true = ground arith in
    (
      record {
        seq_no =
            (if before * slice_sz + slice_sz == length temp
              then bit_or (suc before) 0x40
              else suc before)
            % 256;
        buf1 = take 10 chunk;
        crc = crc;
        buf2 = take 12 (drop 10 chunk);
        buf3 = take 4 (drop 12 (drop 10 chunk));
      },
      rw there refl,
      slice_parts chunk,
    )

-- The slices with the numbers from n down to 1 are there, and are the first n slices.
slices_down-gather :
    (temp : List ℕ) (crc n : ℕ)
    → 1 ≤ n
    → n * slice_sz ≤ length temp
    → (es : List LongNameEntry) × (slices_down temp crc n ≡ some es)
      × (gather es ≡ take (n * slice_sz) temp)
      × (length es ≡ n)
unfolding slices_down
slices_down-gather temp crc zero pos fits = absurd (omega arith)
slices_down-gather temp crc (suc zero) pos fits =
    let (e, run, slice) = copy_in-slice temp crc 0 (omega arith) in
    (e ∷ [], rw run refl, slice, refl)
slices_down-gather temp crc (suc (suc n)) pos fits =
    let (e, run, slice) = copy_in-slice temp crc (suc n) (omega arith) in
    let (es, run', slices, many) =
      slices_down-gather temp crc (suc n) (omega arith) (omega arith) in
    let next : suc (suc n) * slice_sz ≡ suc n * slice_sz + 26 = omega arith in
    (
      e ∷ es,
      rw (run, run') refl,
      ap (λ t. t ++ (e.buf1 ++ (e.buf2 ++ e.buf3))) slices
          ∙ ap (λ t. take (suc n * slice_sz) temp ++ t) slice
          ∙ sym (take-add (suc n * slice_sz) 26 temp)
          ∙ ap (λ k. take k temp) (sym next),
      ap suc many,
    )

-- The padded name is in whole slices, and starts with the name and a zero if it has any padding.
scatter_ucs2_lem :
    (s : Unicode)
    → All IsUcs2 s
    → 1 ≤ length s
    → (length (scatter_ucs2 s) % slice_sz ≡ 0)
      × (length (scatter_ucs2 s) / slice_sz ≡ (2 * length s + 25) / 26)
      × (until_zero (scatter_ucs2 s) ≡ s)
unfolding scatter_ucs2
scatter_ucs2_lem s h some_name = elim (eq_or_ne (length (compress char_lfn s) % 26) 0) [
  | inl e ↦
      let whole : (length (compress char_lfn s) % 26 == 0) ≡ true = ground arith in
      rw whole (
        e,
        omega (arith, length-compress s),
        ap until_zero (sym (append-nil (compress char_lfn s))) ∙ read_name s [] h refl,
      )
  | inr ne ↦
      let remainder = length (compress char_lfn s) % 26 in
      let part : (remainder == 0) ≡ false = ground arith in
      let room : ltb remainder 26 ≡ true = ground arith in
      let room' : ltb (remainder + 1) 26 ≡ true = ground (arith, length-compress s) in
      let pad = replicate (26 - (remainder + 2)) 0xff in
      let long = length-append (compress char_lfn s) (0 ∷ 0 ∷ pad) in
      let pads = length-replicate {A = ℕ} (26 - (remainder + 2)) 0xff in
      rw (part, room, room')
        (
          omega (arith, long, pads, length-compress s),
          omega (arith, long, pads, length-compress s),
          read_name s (0 ∷ 0 ∷ pad) h refl,
        )
]

-- What a driver finds after a long name was written: entries whose slices make the name.
pub ReadsBack : Unicode → ℕ → Type 0
ReadsBack decoded crc =
    (es : List LongNameEntry) × (long_entries decoded crc ≡ some es)
    × (until_zero (gather es) ≡ decoded)
    × (length es ≡ (2 * length decoded + 25) / 26)

-- A name that is not empty, of characters that two bytes hold and none of which is a zero, is written
-- as one entry for each 13 characters begun, and the slices of the entries, joined from the last entry
-- to the first, read as the name.
pub long_entries-ReadsBack :
    (decoded : Unicode) (crc : ℕ) → All IsUcs2 decoded → 1 ≤ length decoded → ReadsBack decoded crc
unfolding long_entries ReadsBack
long_entries-ReadsBack decoded crc h some_name =
    let (whole, number, reads) = scatter_ucs2_lem decoded h some_name in
    let temp = scatter_ucs2 decoded in
    let (es, run, slices, many) =
      slices_down-gather temp crc (length temp / slice_sz) (omega (arith, number)) (omega arith) in
    let all : length temp / slice_sz * slice_sz ≡ length temp = omega (arith, whole) in
    (
      es,
      run,
      ap until_zero (slices ∙ ap (λ k. take k temp) all ∙ take-all temp) ∙ reads,
      many ∙ number,
    )

-- An empty name is not written: the loop runs with the number 0, and reads before the name.
pub long_entries-empty : (crc : ℕ) → long_entries [] crc ≡ none
unfolding long_entries slices_down scatter_ucs2 compress
long_entries-empty crc = refl
