-- ===== src/Fat/LongName.antt =====
-- LongNameEntry of impl/vfat32.h and impl/vfat32.cpp, and the loop of VFat32Out::plan that writes the
-- entries of a long name, the last part of it first.
pub mod Gather
use fsview.Base.{
  ℕ, zero, suc, ◌+◌, ◌-◌, ◌*◌, ◌/◌, ◌%◌, bit_or, Option, none, some, List, [], ◌∷◌, ◌++◌, length,
  take, drop, replicate, if◌then◌else◌, leb, ltb, ◌==◌, ◌>>=◌,
}
use fsview.Text.{Unicode, compress, char_lfn}

abbrev pub slice_sz : ℕ
slice_sz = 10 + 12 + 4

pub record LongNameEntry : Type 0 where
  pub seq_no : ℕ
  pub buf1 : List ℕ
  pub crc : ℕ
  pub buf2 : List ℕ
  pub buf3 : List ℕ

unfoldable pub long_name_bytes : LongNameEntry → List ℕ
long_name_bytes e = e.seq_no % 256 ∷ e.buf1 ++ (0x0f ∷ 0 ∷ e.crc % 256 ∷ e.buf2 ++ (0 ∷ 0 ∷ e.buf3))

-- What is appended where the name does not end with a slice.
abbrev pub terminated : ℕ → List ℕ → List ℕ
terminated remainder temp =
    temp
    ++ ((if ltb remainder slice_sz then 0 ∷ [] else [])
        ++ ((if ltb (remainder + 1) slice_sz then 0 ∷ [] else [])
            ++ replicate (slice_sz - (remainder + 2)) 0xff))

-- The bytes of the name with their padding. The result of the call is their number of slices.
unfoldable pub scatter_ucs2 : Unicode → List ℕ
scatter_ucs2 source =
    let temp = compress char_lfn source in
    let remainder = length temp % slice_sz in
    if remainder == 0 then temp else terminated remainder temp

-- The slice with the number seq, from 1 on. `none` is a read out of bounds, or abort().
unfoldable pub copy_in : List ℕ → ℕ → ℕ → Option LongNameEntry
copy_in temp crc zero = none
copy_in temp crc (suc before) =
    let chunk = drop (before * slice_sz) temp in
    let seq = suc before in
    if leb (before * slice_sz + slice_sz) (length temp)
    then some (record {
      seq_no = (if before * slice_sz + slice_sz == length temp then bit_or seq 0x40 else seq) % 256;
      buf1 = take 10 chunk;
      crc = crc;
      buf2 = take 12 (drop 10 chunk);
      buf3 = take 4 (drop 12 (drop 10 chunk));
    })
    else none

-- The do loop, from the number of slices down to 1.
unfoldable pub slices_down : List ℕ → ℕ → ℕ → Option (List LongNameEntry)
unfolding copy_in
slices_down temp crc zero = none
slices_down temp crc (suc zero) = copy_in temp crc 1 >>= (λ e. some (e ∷ []))
slices_down temp crc (suc (suc before)) = do
  e ← copy_in temp crc (suc (suc before))
  es ← slices_down temp crc (suc before)
  some (e ∷ es)

unfoldable pub long_entries : Unicode → ℕ → Option (List LongNameEntry)
unfolding scatter_ucs2 slices_down
long_entries decoded crc =
    slices_down (scatter_ucs2 decoded) crc (length (scatter_ucs2 decoded) / slice_sz)
