-- ===== src/Cd/Descriptors/Layout.antt =====
-- The fields of a volume descriptor stand where ISO 9660 has them.
use fsview.Base.{
  ℕ, ◌+◌, ◌%◌, ◌≡◌, ap, ◌∙◌, arith, List, [], ◌∷◌, ◌++◌, length, take, drop, length-append,
  drop-drop, drop-append_left,
}
use fsview.Endian.{lsb, msb}
use fsview.Cd.{both, entry_bytes, after_size, zeros}
use fsview.Cd.Dates.{DateTime, date_time_bytes}
use fsview.Cd.Descriptors.{GenVolDesc, number_fields, text_fields, date_fields, gen_vol_desc_bytes}

-- The sizes of the buffers.
pub record IsSized (v : GenVolDesc) : Type 0 where
  pub system_id : length v.system_id ≡ 32
  pub volume_id : length v.volume_id ≡ 32
  pub escape_chars : length v.escape_chars ≡ 32
  pub volume_set_id : length v.volume_set_id ≡ 128
  pub publisher_id : length v.publisher_id ≡ 128
  pub prepare_by_id : length v.prepare_by_id ≡ 128
  pub application : length v.application ≡ 128
  pub copy_file : length v.copy_file ≡ 37
  pub abst_file : length v.abst_file ≡ 37
  pub bibl_file : length v.bibl_file ≡ 37
  pub creation : length (v.creation.decimal) ≡ 16
  pub modification : length (v.modification.decimal) ≡ 16
  pub expiration : length (v.expiration.decimal) ≡ 16
  pub effective : length (v.effective.decimal) ≡ 16

-- The number of bytes, the size of the volume, the size of a block, the size and the places of the path
-- tables, and the record of the root.
pub HasLayout : GenVolDesc → Type 0
HasLayout v =
    let bytes = gen_vol_desc_bytes v in
    (length bytes ≡ 883)
    × (take 8 (drop 80 bytes) ≡ both 4 v.blocks)
    × (take 4 (drop 128 bytes) ≡ both 2 v.blk_sz)
    × (take 8 (drop 132 bytes) ≡ both 4 v.p_tab_sz)
    × (take 4 (drop 140 bytes) ≡ lsb 4 v.p_tab_lsb)
    × (take 4 (drop 148 bytes) ≡ msb 4 v.p_tab_msb)
    × (take 34 (drop 156 bytes) ≡ entry_bytes v.root_directory)

skip : (k n : ℕ) (xs ys : List ℕ) → length xs ≡ k → drop (k + n) (xs ++ ys) ≡ drop n ys
skip k n xs ys h = drop-drop k n (xs ++ ys) ∙ ap (drop n) (drop-append_left k xs ys h)

length-text_fields : (v : GenVolDesc) → IsSized v → length (text_fields v) ≡ 623
length-text_fields v h =
    let last = length-append v.abst_file v.bibl_file in
    let last3 = length-append v.copy_file (v.abst_file ++ v.bibl_file) in
    let files = v.copy_file ++ (v.abst_file ++ v.bibl_file) in
    omega (
      arith,
      h.volume_set_id,
      h.publisher_id,
      h.prepare_by_id,
      h.application,
      h.copy_file,
      h.abst_file,
      h.bibl_file,
      last,
      last3,
      length-append v.application files,
      length-append v.prepare_by_id (v.application ++ files),
      length-append v.publisher_id (v.prepare_by_id ++ (v.application ++ files)),
      length-append v.volume_set_id
          (v.publisher_id ++ (v.prepare_by_id ++ (v.application ++ files))),
    )

length-date_time_bytes : (d : DateTime) → length d.decimal ≡ 16 → length (date_time_bytes d) ≡ 17
length-date_time_bytes d h = omega (arith, h, length-append d.decimal (d.tzoff % 256 ∷ []))

length-date_fields : (v : GenVolDesc) → IsSized v → length (date_fields v) ≡ 68
length-date_fields v h =
    let c = date_time_bytes v.expiration ++ date_time_bytes v.effective in
    omega (
      arith,
      length-date_time_bytes v.creation h.creation,
      length-date_time_bytes v.modification h.modification,
      length-date_time_bytes v.expiration h.expiration,
      length-date_time_bytes v.effective h.effective,
      length-append (date_time_bytes v.expiration) (date_time_bytes v.effective),
      length-append (date_time_bytes v.modification) c,
      length-append (date_time_bytes v.creation) (date_time_bytes v.modification ++ c),
    )

-- What stands behind the escape characters.
abbrev behind : GenVolDesc → List ℕ
behind v =
    number_fields v
    ++ (entry_bytes v.root_directory ++ (text_fields v ++ (date_fields v ++ (1 ∷ 0 ∷ []))))

module _ (v : GenVolDesc) (h : IsSized v) where
  at_blocks : drop 80 (gen_vol_desc_bytes v) ≡ both 4 v.blocks ++ (v.escape_chars ++ behind v)
  unfolding gen_vol_desc_bytes
  at_blocks =
      let rest = zeros 8 ++ (both 4 v.blocks ++ (v.escape_chars ++ behind v)) in
      skip 32 40 v.system_id (v.volume_id ++ rest) h.system_id
      ∙ skip 32 8 v.volume_id rest h.volume_id

  at_numbers : drop 120 (gen_vol_desc_bytes v) ≡ behind v
  at_numbers =
      drop-drop 80 40 (gen_vol_desc_bytes v)
      ∙ ap (drop 40) at_blocks
      ∙ skip 32 0 v.escape_chars (behind v) h.escape_chars

  behind_at : (n : ℕ) → drop (120 + n) (gen_vol_desc_bytes v) ≡ drop n (behind v)
  behind_at n = drop-drop 120 n (gen_vol_desc_bytes v) ∙ ap (drop n) at_numbers

  length-behind : length (behind v) ≡ 763
  unfolding after_size
  length-behind = omega (
    arith,
    length-text_fields v h,
    length-date_fields v h,
    length-append (date_fields v) (1 ∷ 0 ∷ []),
    length-append (text_fields v) (date_fields v ++ (1 ∷ 0 ∷ [])),
  )

  length-bytes : length (gen_vol_desc_bytes v) ≡ 883
  unfolding gen_vol_desc_bytes
  length-bytes =
      let rest = zeros 8 ++ (both 4 v.blocks ++ (v.escape_chars ++ behind v)) in
      omega (
        arith,
        h.system_id,
        h.volume_id,
        h.escape_chars,
        length-behind,
        length-append v.escape_chars (behind v),
        length-append v.volume_id rest,
        length-append v.system_id (v.volume_id ++ rest),
      )

-- A descriptor whose buffers have their sizes takes 883 bytes, up to where ISO 9660 leaves the rest to
-- applications; and the size of the volume is at 80 in it, that of a block at 128, that of the
-- path table at 132, the tables' places at 140 and 148, and the record of the root at 156.
pub gen_vol_desc_bytes-HasLayout : (v : GenVolDesc) → IsSized v → HasLayout v
unfolding HasLayout after_size
gen_vol_desc_bytes-HasLayout v h = (
  length-bytes v h,
  ap (take 8) (at_blocks v h),
  ap (take 4) (behind_at v h 8),
  ap (take 8) (behind_at v h 12),
  ap (take 4) (behind_at v h 20),
  ap (take 4) (behind_at v h 28),
  ap (take 34) (behind_at v h 36),
)
