-- ===== src/Hfs/Headers/Layout.antt =====
-- Where a reader finds the fields of the volume header.
use fsview.Base.{
  ℕ, ◌+◌, ◌≡◌, refl, ap, ◌∙◌, arith, List, [], ◌++◌, length, take, drop, length-append, drop-drop,
  drop-append_left, take-append_left,
}
use fsview.Endian.{msb}
use fsview.Hfs.Forks.{HasEight, fork_bytes}
use fsview.Hfs.Forks.Sizes.{length-fork_bytes}
use fsview.Hfs.Headers.{HfsPlusVolumeHeader, volume_header_bytes, BtHeaderRec, header_rec_bytes}

pub length-header_rec_bytes : (h : BtHeaderRec) → length (header_rec_bytes h) ≡ 106
length-header_rec_bytes h = refl

-- The five forks of a volume header have eight descriptors each.
unfoldable pub IsWhole : HfsPlusVolumeHeader → Type 0
IsWhole v =
    HasEight v.allocation_file
    × HasEight v.extents_file
    × HasEight v.catalog_file
    × HasEight v.attributes_file
    × HasEight v.startup_file

-- Fields of known lengths one after the other.
second_field :
    (n : ℕ) (a b rest : List ℕ)
    → length a ≡ 80
    → length b ≡ n
    → take n (drop 80 (a ++ (b ++ rest))) ≡ b
second_field n a b rest ha hb =
    ap (take n) (drop-append_left 80 a (b ++ rest) ha) ∙ take-append_left n b rest hb

third_field :
    (a b c rest : List ℕ)
    → length a ≡ 80
    → length b ≡ 80
    → length c ≡ 80
    → take 80 (drop 160 (a ++ (b ++ (c ++ rest)))) ≡ c
third_field a b c rest ha hb hc =
    ap (take 80) (drop-drop 80 80 (a ++ (b ++ (c ++ rest))))
    ∙ ap (λ t. take 80 (drop 80 t)) (drop-append_left 80 a (b ++ (c ++ rest)) ha)
    ∙ second_field 80 b c rest hb hc

-- A volume header whose forks have eight descriptors each is a sector long, and a reader finds in it
-- the block size at byte 40, the number of blocks at byte 44, the forks of the allocation file at
-- byte 112, of the extents file at 192 and of the catalog file at 272.
pub volume_header_bytes_lem :
    (v : HfsPlusVolumeHeader)
    → IsWhole v
    → (length (volume_header_bytes v) ≡ 512)
      × (take 4 (drop 40 (volume_header_bytes v)) ≡ msb 4 v.volume_block_size)
      × (take 4 (drop 44 (volume_header_bytes v)) ≡ msb 4 v.volume_total_blocks)
      × (take 80 (drop 112 (volume_header_bytes v)) ≡ fork_bytes v.allocation_file)
      × (take 80 (drop 192 (volume_header_bytes v)) ≡ fork_bytes v.extents_file)
      × (take 80 (drop 272 (volume_header_bytes v)) ≡ fork_bytes v.catalog_file)
unfolding IsWhole volume_header_bytes
volume_header_bytes_lem v (ha, he, hc, ht, hs) =
    let bytes = volume_header_bytes v in
    let alloc = fork_bytes v.allocation_file in
    let over = fork_bytes v.extents_file in
    let cat = fork_bytes v.catalog_file in
    let attr = fork_bytes v.attributes_file in
    let startup = fork_bytes v.startup_file ++ [] in
    let la = length-fork_bytes v.allocation_file ha in
    let le = length-fork_bytes v.extents_file he in
    let lc = length-fork_bytes v.catalog_file hc in
    let size : length bytes ≡ 112 + length (alloc ++ (over ++ (cat ++ (attr ++ startup)))) =
      length-append (take 112 bytes) (alloc ++ (over ++ (cat ++ (attr ++ startup)))) in
    (
      omega (
        arith,
        size,
        length-append alloc (over ++ (cat ++ (attr ++ startup))),
        length-append over (cat ++ (attr ++ startup)),
        length-append cat (attr ++ startup),
        length-append attr startup,
        length-append (fork_bytes v.startup_file) [],
        la,
        le,
        lc,
        length-fork_bytes v.attributes_file ht,
        length-fork_bytes v.startup_file hs,
      ),
      refl,
      refl,
      take-append_left 80 alloc (over ++ (cat ++ (attr ++ startup))) la,
      ap (take 80) (drop-drop 112 80 bytes)
          ∙ second_field 80 alloc over (cat ++ (attr ++ startup)) la le,
      ap (take 80) (drop-drop 112 160 bytes)
          ∙ third_field alloc over cat (attr ++ startup) la le lc,
    )
