-- ===== src/Hfs/Headers.antt =====
-- The header record of a tree and the volume header of impl/hfplus.h.
pub mod Layout
use fsview.Base.{ℕ, ◌+◌, ◌-◌, ◌*◌, ◌%◌, ◌^◌, bit_or, List, [], ◌∷◌, ◌++◌, replicate, map}
use fsview.Hfs.Forks.{u16, u32, u64, zeros, concat, HfsPlusForkData, new_fork, fork_bytes}

-- KCUnused and KCBinaryCompare, kBTBigKeysMask and kBTVariableIndexKeysMask.
abbrev pub kc_unused : ℕ
kc_unused = 0

abbrev pub kc_binary_compare : ℕ
kc_binary_compare = 0xbc

abbrev pub big_keys_mask : ℕ
big_keys_mask = 2

abbrev pub variable_index_keys_mask : ℕ
variable_index_keys_mask = 4

pub record BtHeaderRec : Type 0 where
  pub tree_depth : ℕ
  pub root_node : ℕ
  pub leaf_records : ℕ
  pub first_leaf_node : ℕ
  pub last_leaf_node : ℕ
  pub node_size : ℕ
  pub max_key_length : ℕ
  pub total_nodes : ℕ
  pub free_nodes : ℕ
  pub header_clump_size : ℕ
  pub btree_type : ℕ
  pub key_compare_type : ℕ
  pub attributes : ℕ

abbrev pub new_header_rec : BtHeaderRec
new_header_rec = record {
  tree_depth = 0;
  root_node = 0;
  leaf_records = 0;
  first_leaf_node = 0;
  last_leaf_node = 0;
  node_size = 0;
  max_key_length = 0;
  total_nodes = 0;
  free_nodes = 0;
  header_clump_size = 0;
  btree_type = 0;
  key_compare_type = 0;
  attributes = 0;
}

abbrev pub header_rec_bytes : BtHeaderRec → List ℕ
header_rec_bytes h =
    u16 h.tree_depth
    ++ u32 h.root_node
    ++ u32 h.leaf_records
    ++ u32 h.first_leaf_node
    ++ u32 h.last_leaf_node
    ++ u16 h.node_size
    ++ u16 h.max_key_length
    ++ u32 h.total_nodes
    ++ u32 h.free_nodes
    ++ zeros 2
    ++ u32 h.header_clump_size
    ++ (h.btree_type % 256 ∷ h.key_compare_type % 256 ∷ u32 h.attributes)
    ++ zeros 64

-- A catalog key has 8 bytes before its name, of which keyLength is two, and an extent key has 12.
unfoldable pub tune_for_catalog : BtHeaderRec → BtHeaderRec
tune_for_catalog h = record h {
  key_compare_type = kc_binary_compare;
  attributes = bit_or big_keys_mask variable_index_keys_mask;
  node_size = 8 * 2 ^ 10;
  max_key_length = 8 - 2 + 255 * 2;
}

unfoldable pub tune_for_overflow : BtHeaderRec → BtHeaderRec
tune_for_overflow h = record h {
  key_compare_type = kc_unused;
  attributes = big_keys_mask;
  node_size = 4 * 2 ^ 10;
  max_key_length = 12 - 2;
}

-- The initial attributes are kHFSVolumeUnmountedBit | kHFSCatalogNodeIDsReusedBit.
abbrev pub volume_unmounted_bit : ℕ
volume_unmounted_bit = 8

abbrev pub node_ids_reused_bit : ℕ
node_ids_reused_bit = 12

pub record HfsPlusVolumeHeader : Type 0 where
  pub volume_attributes : ℕ
  pub volume_create_date : ℕ
  pub volume_modify_date : ℕ
  pub volume_backup_date : ℕ
  pub checked_date : ℕ
  pub file_count : ℕ
  pub volume_folder_count : ℕ
  pub volume_block_size : ℕ
  pub volume_total_blocks : ℕ
  pub free_blocks : ℕ
  pub next_allocation : ℕ
  pub rsrc_clump_size : ℕ
  pub data_clump_size : ℕ
  pub next_catalog_id : ℕ
  pub write_count : ℕ
  pub encodings_bitmap : ℕ
  pub allocation_file : HfsPlusForkData
  pub extents_file : HfsPlusForkData
  pub catalog_file : HfsPlusForkData
  pub attributes_file : HfsPlusForkData
  pub startup_file : HfsPlusForkData

unfoldable pub new_volume_header : HfsPlusVolumeHeader
new_volume_header = record {
  volume_attributes = bit_or volume_unmounted_bit node_ids_reused_bit;
  volume_create_date = 0;
  volume_modify_date = 0;
  volume_backup_date = 0;
  checked_date = 0;
  file_count = 0;
  volume_folder_count = 0;
  volume_block_size = 0;
  volume_total_blocks = 0;
  free_blocks = 0;
  next_allocation = 0;
  rsrc_clump_size = 0;
  data_clump_size = 0;
  next_catalog_id = 0;
  write_count = 0;
  encodings_bitmap = 1;
  allocation_file = new_fork;
  extents_file = new_fork;
  catalog_file = new_fork;
  attributes_file = new_fork;
  startup_file = new_fork;
}

-- The signature is "HX", and the version of the last mount "10.0". finderInfo stays zero.
unfoldable pub volume_header_bytes : HfsPlusVolumeHeader → List ℕ
volume_header_bytes v =
    (0x48 ∷ 0x58 ∷ u16 5)
    ++ u32 v.volume_attributes
    ++ (0x31 ∷ 0x30 ∷ 0x2e ∷ 0x30 ∷ u32 0)
    ++ u32 v.volume_create_date
    ++ u32 v.volume_modify_date
    ++ u32 v.volume_backup_date
    ++ u32 v.checked_date
    ++ u32 v.file_count
    ++ u32 v.volume_folder_count
    ++ u32 v.volume_block_size
    ++ u32 v.volume_total_blocks
    ++ u32 v.free_blocks
    ++ u32 v.next_allocation
    ++ u32 v.rsrc_clump_size
    ++ u32 v.data_clump_size
    ++ u32 v.next_catalog_id
    ++ u32 v.write_count
    ++ u64 v.encodings_bitmap
    ++ zeros 32
    ++ concat (
        fork_bytes v.allocation_file
        ∷ fork_bytes v.extents_file
        ∷ fork_bytes v.catalog_file
        ∷ fork_bytes v.attributes_file
        ∷ fork_bytes v.startup_file
        ∷ [])

unfoldable pub set_volume_block_size : ℕ → HfsPlusVolumeHeader → HfsPlusVolumeHeader
set_volume_block_size blk_sz v = record v {
  volume_block_size = blk_sz % 2 ^ 32;
  data_clump_size = blk_sz % 2 ^ 32;
  rsrc_clump_size = blk_sz % 2 ^ 32;
}
