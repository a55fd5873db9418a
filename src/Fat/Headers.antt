-- ===== src/Fat/Headers.antt =====
-- VolumeDesc and SummarySec of impl/vfat32.h, and what VFat32Out sets in them and reserves for them.
pub mod Sector
pub mod Reserve
use fsview.Base.{
  ℕ, ◌+◌, ◌-◌, ◌*◌, ◌/◌, ◌%◌, ◌^◌, max, List, [], ◌∷◌, ◌++◌, replicate, Option, some, ◌>>=◌,
}
use fsview.Endian.{lsb}
use fsview.Extent.{Extent, mapper_bs, round_up, zero_extent}
use fsview.Burner.{Planner, append, pad_to}

abbrev pub zeros : ℕ → List ℕ
zeros n = replicate n 0

pub record VolumeDesc : Type 0 where
  pub oem_name : List ℕ
  pub sec_sz : ℕ
  pub cluster_scc : ℕ
  pub reserved_scc : ℕ
  pub fat_count : ℕ
  pub all_scc : ℕ
  pub fat_scc : ℕ
  pub root_cl : ℕ
  pub info_sec : ℕ
  pub volume_id : List ℕ
  pub vol_name : List ℕ

-- "MSDOS5.0", and a name of spaces.
unfoldable pub new_volume_desc : VolumeDesc
new_volume_desc = record {
  oem_name = 77 ∷ 83 ∷ 68 ∷ 79 ∷ 83 ∷ 53 ∷ 46 ∷ 48 ∷ [];
  sec_sz = mapper_bs;
  cluster_scc = 0;
  reserved_scc = 20;
  fat_count = 2;
  all_scc = 0;
  fat_scc = 0;
  root_cl = 0;
  info_sec = 1;
  volume_id = zeros 4;
  vol_name = replicate 11 32;
}

-- The fields between the two names, and what follows the second one: "FAT32", the boot code and the
-- signature.
abbrev pub middle_fields : VolumeDesc → List ℕ
middle_fields v =
    lsb 2 v.sec_sz
    ++ (v.cluster_scc % 256 ∷ lsb 2 v.reserved_scc)
    ++ (v.fat_count % 256 ∷ zeros 4)
    ++ (0xf8 ∷ zeros 2)
    ++ zeros 8
    ++ lsb 4 v.all_scc
    ++ lsb 4 v.fat_scc
    ++ zeros 2
    ++ lsb 2 0
    ++ lsb 4 v.root_cl
    ++ lsb 2 v.info_sec
    ++ lsb 2 0
    ++ zeros 12
    ++ (0 ∷ 0 ∷ 0x29 ∷ [])

abbrev pub last_fields : List ℕ
last_fields = (70 ∷ 65 ∷ 84 ∷ 51 ∷ 50 ∷ 32 ∷ 32 ∷ 32 ∷ []) ++ (zeros (0x1fe - 0x5a) ++ lsb 2 0xaa55)

unfoldable pub volume_desc_bytes : VolumeDesc → List ℕ
volume_desc_bytes v =
    0xeb ∷ 0x58 ∷ 0x90 ∷ v.oem_name
    ++ (middle_fields v ++ (v.volume_id ++ (v.vol_name ++ last_fields)))

unfoldable pub desc_block_size : VolumeDesc → ℕ
desc_block_size v = v.sec_sz * v.cluster_scc

unfoldable pub set_desc_block_size : ℕ → VolumeDesc → VolumeDesc
set_desc_block_size blk_size v = record v { cluster_scc = blk_size / v.sec_sz % 2 ^ 8 }

pub record SummarySec : Type 0 where
  pub lkn_free_clusters : ℕ
  pub next_free_cluster : ℕ

unfoldable pub summary_sec_bytes : SummarySec → List ℕ
summary_sec_bytes s =
    (82 ∷ 82 ∷ 97 ∷ 65 ∷ zeros 480)
    ++ (114 ∷ 114 ∷ 65 ∷ 97 ∷ lsb 4 s.lkn_free_clusters)
    ++ lsb 4 s.next_free_cluster
    ++ zeros 12
    ++ (0 ∷ 0 ∷ 0x55 ∷ 0xaa ∷ [])

-- clusterCount: the files' bytes are `total`, the folders `paths` and the files `files`.
unfoldable pub cluster_count : ℕ → ℕ → ℕ → ℕ → ℕ → ℕ
cluster_count blk_size total files paths xtra_room =
    let entries = total + (files + paths * 4) * 32 + blk_size * paths in
    max (round_up (entries + round_up xtra_room blk_size) blk_size / blk_size + 2) 65537

-- The three extents of planHeaders that refer to memory are at the pointers `vol`, `sec` and `sig`.
abbrev pub temp_extent : ℕ → ℕ → Extent
temp_extent bytes medium = record { offset = 0; length = bytes; medium = some medium }

-- The signature at the end of the next sector, the padding, and the sectors that are reserved then.
unfoldable pub plan_signature : ℕ → ℕ → VolumeDesc → Planner → Option (VolumeDesc × Planner)
plan_signature sig blk_size v planner = do
  (_, p1) ← append (zero_extent 508) planner
  (_, p2) ← append (temp_extent 4 sig) p1
  (_, p3) ← pad_to blk_size p2
  some (record v { reserved_scc = p3.offset / mapper_bs % 2 ^ 16 }, p3)

unfoldable pub plan_headers : ℕ → ℕ → ℕ → ℕ → VolumeDesc → Planner → Option (VolumeDesc × Planner)
unfolding plan_signature
plan_headers vol sec sig blk_size v planner = do
  (_, p1) ← append (temp_extent 512 vol) planner
  (_, p2) ← pad_to mapper_bs p1
  (_, p3) ← append (temp_extent 512 sec) p2
  (_, p4) ← append (zero_extent 508) p3
  (_, p5) ← append (temp_extent 4 sig) p4
  (_, p6) ← pad_to blk_size p5
  plan_signature sig blk_size v p6
