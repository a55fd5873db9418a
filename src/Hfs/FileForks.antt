-- ===== src/Hfs/FileForks.antt =====
-- The file loop of HFPlusOut::masterComplete in impl/hfplus.cpp, and onOverflow: the descriptors of a
-- file's extents, eight in the fork and eight in each record of the overflow.
pub mod Descriptors
pub mod Ninth
use fsview.Base.{
  ℕ, zero, suc, ◌+◌, ◌-◌, ◌*◌, ◌/◌, ◌%◌, ◌^◌, Bool, true, false, Option, none, some, List, [], ◌∷◌,
  if◌then◌else◌, ◌==◌,
}
use fsview.Extent.{round_up}
use fsview.Hfs.Forks.{HfsPlusExtentDescriptor, HfsPlusExtentRecord, set, no_extents}
use fsview.Hfs.Entries.{HfsPlusExtentKey, same_extent_key, extent_key_below}

-- `desc` is the record that the loop fills: the fork's own, or the
-- one of an overflow key. `last` is where the last descriptor is.
pub record FileForks : Type 0 where
  pub own_extents : HfsPlusExtentRecord
  pub overflow : List (HfsPlusExtentKey × HfsPlusExtentRecord)
  pub desc : Option HfsPlusExtentKey
  pub extent_no : ℕ
  pub blk : ℕ
  pub last : Option (Option HfsPlusExtentKey × ℕ)

abbrev pub new_file_forks : List (HfsPlusExtentKey × HfsPlusExtentRecord) → FileForks
new_file_forks overflow = record {
  own_extents = no_extents;
  overflow = overflow;
  desc = none;
  extent_no = 0;
  blk = 0;
  last = none;
}

-- `overflow[key]`: a missing key is inserted with an empty record.
abbrev pub add_overflow :
    HfsPlusExtentKey
    → List (HfsPlusExtentKey × HfsPlusExtentRecord)
    → List (HfsPlusExtentKey × HfsPlusExtentRecord)
unfolding same_extent_key extent_key_below
add_overflow key [] = (key, no_extents) ∷ []
add_overflow key ((k, v) ∷ overflow) =
    if same_extent_key key k
    then (k, v) ∷ overflow
    else if extent_key_below key k
    then (key, no_extents) ∷ (k, v) ∷ overflow
    else (k, v) ∷ add_overflow key overflow

-- onOverflow: the key of a data fork's record from block `blk` on.
abbrev pub overflow_key : ℕ → ℕ → HfsPlusExtentKey
overflow_key file_id blk = record {
  extent_key_length = 10;
  fork_type = 0;
  file_id = file_id;
  first_block = blk % 2 ^ 32;
}

abbrev pub modify_descriptor :
    ℕ
    → (HfsPlusExtentDescriptor → HfsPlusExtentDescriptor)
    → HfsPlusExtentRecord
    → HfsPlusExtentRecord
modify_descriptor i f [] = []
modify_descriptor zero f (d ∷ extents) = f d ∷ extents
modify_descriptor (suc i) f (d ∷ extents) = d ∷ modify_descriptor i f extents

abbrev pub modify_overflow :
    HfsPlusExtentKey
    → ℕ
    → (HfsPlusExtentDescriptor → HfsPlusExtentDescriptor)
    → List (HfsPlusExtentKey × HfsPlusExtentRecord)
    → List (HfsPlusExtentKey × HfsPlusExtentRecord)
unfolding same_extent_key
modify_overflow key i f [] = []
modify_overflow key i f ((k, v) ∷ overflow) =
    if same_extent_key key k
    then (k, modify_descriptor i f v) ∷ overflow
    else (k, v) ∷ modify_overflow key i f overflow

abbrev pub modify_at :
    Option HfsPlusExtentKey
    → ℕ
    → (HfsPlusExtentDescriptor → HfsPlusExtentDescriptor)
    → FileForks
    → FileForks
modify_at none i f forks = record forks { own_extents = modify_descriptor i f forks.own_extents }
modify_at (some key) i f forks = record forks { overflow = modify_overflow key i f forks.overflow }

abbrev pub descriptor_in : ℕ → HfsPlusExtentRecord → HfsPlusExtentDescriptor
descriptor_in i [] = set 0 0
descriptor_in zero (d ∷ extents) = d
descriptor_in (suc i) (d ∷ extents) = descriptor_in i extents

abbrev pub overflow_descriptor :
    HfsPlusExtentKey → ℕ → List (HfsPlusExtentKey × HfsPlusExtentRecord) → HfsPlusExtentDescriptor
unfolding same_extent_key
overflow_descriptor key i [] = set 0 0
overflow_descriptor key i ((k, v) ∷ overflow) =
    if same_extent_key key k then descriptor_in i v else overflow_descriptor key i overflow

-- Whether the extent continues the last descriptor, which `pExt` points to.
abbrev pub continues : Option (Option HfsPlusExtentKey × ℕ) → ℕ → FileForks → Bool
continues none extent_lba forks = false
continues (some (none, i)) extent_lba forks =
    let d = descriptor_in i forks.own_extents in
    (d.start_block + d.block_count) % 2 ^ 32 == extent_lba
continues (some (some key, i)) extent_lba forks =
    let d = overflow_descriptor key i forks.overflow in
    (d.start_block + d.block_count) % 2 ^ 32 == extent_lba

abbrev pub extend : Option (Option HfsPlusExtentKey × ℕ) → ℕ → FileForks → FileForks
extend none length_lba forks = forks
extend (some (desc, i)) length_lba forks =
    modify_at desc i (λ d. set d.start_block (d.block_count + length_lba)) forks

-- A ninth descriptor goes to a new overflow record.
abbrev pub next_record : ℕ → FileForks → FileForks
next_record file_id forks =
    if forks.extent_no == 8
    then record forks {
      overflow = add_overflow (overflow_key file_id forks.blk) forks.overflow;
      desc = some (overflow_key file_id forks.blk);
      extent_no = 0;
    }
    else forks

abbrev pub place_extent : ℕ → ℕ → FileForks → FileForks
place_extent extent_lba length_lba forks =
    if continues forks.last extent_lba forks
    then extend forks.last length_lba forks
    else record (modify_at forks.desc forks.extent_no (λ d. set extent_lba length_lba) forks) {
      extent_no = forks.extent_no + 1;
      last = some (forks.desc, forks.extent_no);
    }

-- An extent is its offset on the target and its length.
unfoldable pub add_extent : ℕ → ℕ → ℕ × ℕ → FileForks → FileForks
add_extent file_id blk_sz (offset, bytes) forks =
    let length_lba = round_up bytes blk_sz / blk_sz in
    let placed = place_extent (offset / blk_sz) length_lba (next_record file_id forks) in
    record placed { blk = placed.blk + length_lba }

unfoldable pub add_extents : ℕ → ℕ → List (ℕ × ℕ) → FileForks → FileForks
unfolding add_extent
add_extents file_id blk_sz [] forks = forks
add_extents file_id blk_sz (x ∷ extents) forks =
    add_extents file_id blk_sz extents (add_extent file_id blk_sz x forks)
