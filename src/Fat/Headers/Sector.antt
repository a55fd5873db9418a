-- ===== src/Fat/Headers/Sector.antt =====
-- The first sectors of a FAT32 volume as a driver reads them.
use fsview.Base.{
  ℕ, ◌+◌, ◌*◌, ◌^◌, ◌<◌, ◌≡◌, ap, ◌∙◌, arith, List, ◌∷◌, ◌++◌, length, take, drop, length-append,
  drop-append_left, drop-drop,
}
use fsview.Endian.{lsb}
use fsview.Fat.Headers.{
  VolumeDesc, volume_desc_bytes, desc_block_size, set_desc_block_size, middle_fields, last_fields,
}

-- A volume description with names of eight and eleven characters and an identifier of four bytes is
-- one sector, with the sector size at byte 11, the sectors of a cluster at 13, those that are
-- reserved at 14, the sectors of a table at 36 and the cluster of the root at 44.
pub volume_desc_bytes_lem :
    (v : VolumeDesc)
    → length v.oem_name ≡ 8
    → length v.volume_id ≡ 4
    → length v.vol_name ≡ 11
    → (length (volume_desc_bytes v) ≡ 512)
      × (take 2 (drop 11 (volume_desc_bytes v)) ≡ lsb 2 v.sec_sz)
      × (take 1 (drop 13 (volume_desc_bytes v)) ≡ lsb 1 v.cluster_scc)
      × (take 2 (drop 14 (volume_desc_bytes v)) ≡ lsb 2 v.reserved_scc)
      × (take 4 (drop 36 (volume_desc_bytes v)) ≡ lsb 4 v.fat_scc)
      × (take 4 (drop 44 (volume_desc_bytes v)) ≡ lsb 4 v.root_cl)
unfolding volume_desc_bytes
volume_desc_bytes_lem v ho hi hn =
    let rest = middle_fields v ++ (v.volume_id ++ (v.vol_name ++ last_fields)) in
    let front = 0xeb ∷ 0x58 ∷ 0x90 ∷ v.oem_name in
    (
      omega (
        arith,
        length-append v.oem_name rest,
        length-append (middle_fields v) (v.volume_id ++ (v.vol_name ++ last_fields)),
        length-append v.volume_id (v.vol_name ++ last_fields),
        length-append v.vol_name last_fields,
        ho,
        hi,
        hn,
      ),
      after_name 2 0 front rest (omega (arith, ho)),
      after_name 1 2 front rest (omega (arith, ho)),
      after_name 2 3 front rest (omega (arith, ho)),
      after_name 4 25 front rest (omega (arith, ho)),
      after_name 4 33 front rest (omega (arith, ho)),
    )
  where
    after_name :
        (n k : ℕ) (front rest : List ℕ)
        → length front ≡ 11
        → take n (drop (11 + k) (front ++ rest)) ≡ take n (drop k rest)
    after_name n k front rest h =
        ap (take n)
          (drop-drop 11 k (front ++ rest) ∙ ap (drop k) (drop-append_left 11 front rest h))

-- The cluster size reads back as it was set, where it is a multiple of the sector size and has less
-- than 256 sectors.
pub desc_block_size-set_desc_block_size :
    (clusters : ℕ) (v : VolumeDesc)
    → v.sec_sz ≡ 512
    → clusters < 2 ^ 8
    → desc_block_size (set_desc_block_size (512 * clusters) v) ≡ 512 * clusters
unfolding desc_block_size set_desc_block_size
desc_block_size-set_desc_block_size clusters v hs hc = rw hs (omega arith)
