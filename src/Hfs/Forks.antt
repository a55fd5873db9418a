-- ===== src/Hfs/Forks.antt =====
-- Extent descriptors and forks of impl/hfplus.h. A field of n bytes keeps what is assigned to it
-- modulo 256 ^ n.
pub mod Sizes
use fsview.Base.{ℕ, ◌+◌, ◌-◌, ◌*◌, ◌/◌, ◌%◌, ◌^◌, List, [], ◌∷◌, ◌++◌, map, length, ◌≡◌, replicate}
use fsview.Endian.{msb}

-- The bytes of big-endian words of two, four and eight bytes.
abbrev pub u16 : ℕ → List ℕ
u16 x = msb 2 x

abbrev pub u32 : ℕ → List ℕ
u32 x = msb 4 x

abbrev pub u64 : ℕ → List ℕ
u64 x = msb 8 x

-- The type `zero` and its arrays.
abbrev pub zeros : ℕ → List ℕ
zeros n = replicate n 0

abbrev pub concat {ℓ} : {A : Type ℓ} → List (List A) → List A
concat [] = []
concat (xs ∷ xss) = xs ++ concat xss

pub record HfsPlusExtentDescriptor : Type 0 where
  pub start_block : ℕ
  pub block_count : ℕ

abbrev pub no_descriptor : HfsPlusExtentDescriptor
no_descriptor = record { start_block = 0; block_count = 0 }

abbrev pub set : ℕ → ℕ → HfsPlusExtentDescriptor
set start count = record { start_block = start % 2 ^ 32; block_count = count % 2 ^ 32 }

abbrev pub descriptor_bytes : HfsPlusExtentDescriptor → List ℕ
descriptor_bytes d = u32 d.start_block ++ u32 d.block_count

-- A std::array of eight descriptors.
abbrev pub HfsPlusExtentRecord : Type 0
HfsPlusExtentRecord = List HfsPlusExtentDescriptor

abbrev pub no_extents : HfsPlusExtentRecord
no_extents = replicate 8 no_descriptor

abbrev pub extent_record_bytes : HfsPlusExtentRecord → List ℕ
extent_record_bytes extents = concat (map descriptor_bytes extents)

pub record HfsPlusForkData : Type 0 where
  pub logical_size : ℕ
  pub fork_clump_size : ℕ
  pub total_blocks : ℕ
  pub extents : HfsPlusExtentRecord

abbrev pub new_fork : HfsPlusForkData
new_fork = record { logical_size = 0; fork_clump_size = 0; total_blocks = 0; extents = no_extents }

abbrev pub fork_bytes : HfsPlusForkData → List ℕ
fork_bytes fork =
    u64 fork.logical_size
    ++ u32 fork.fork_clump_size
    ++ u32 fork.total_blocks
    ++ extent_record_bytes fork.extents

abbrev pub set_first : HfsPlusExtentDescriptor → HfsPlusExtentRecord → HfsPlusExtentRecord
set_first d [] = []
set_first d (_ ∷ extents) = d ∷ extents

-- totalBlocks as setExtent computes it.
abbrev pub blocks_of : ℕ → ℕ → ℕ
blocks_of bytes blk_sz = (bytes + blk_sz - 1) / blk_sz % 2 ^ 32

unfoldable pub set_extent : ℕ → ℕ → ℕ → HfsPlusForkData → HfsPlusForkData
set_extent offset bytes blk_sz fork = record {
  logical_size = bytes;
  fork_clump_size = blk_sz % 2 ^ 32;
  total_blocks = blocks_of bytes blk_sz;
  extents = set_first (set (offset / blk_sz) (blocks_of bytes blk_sz)) fork.extents;
}

unfoldable pub set_reserved : HfsPlusForkData → HfsPlusForkData
set_reserved fork = record fork { logical_size = 0; total_blocks = 0; fork_clump_size = 0 }

-- A fork has the eight descriptors of the array.
unfoldable pub HasEight : HfsPlusForkData → Type 0
HasEight fork = length fork.extents ≡ 8
