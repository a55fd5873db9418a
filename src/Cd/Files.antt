-- ===== src/Cd/Files.antt =====
-- The records of a file in CD9660Out::plan: one for each extent of the file.
pub mod Sections
use fsview.Base.{
  ℕ, ◌+◌, ◌-◌, ◌*◌, ◌/◌, ◌%◌, ◌^◌, bit_and, bit_or, Bool, true, false, Option, none, some, List, [],
  ◌∷◌, if◌then◌else◌, leb, ◌>>=◌,
}
use fsview.Base.Words.{sle64, add64, sub64}
use fsview.Extent.{Extent, Media}
use fsview.Device.{Colonies, within_disk}
use fsview.Cd.{DirectoryEntry, DirEntryDtTime, new_entry, set_enc_name}

abbrev pub folder_flag : ℕ
folder_flag = 2 ^ 1

abbrev pub tb_cont : ℕ
tb_cont = 2 ^ 7

-- The record of an extent that starts at `offset` of the target, where `length` of the file is left.
-- The flags are one byte.
unfoldable pub extent_entry : ℕ → ℕ → Extent → ℕ → DirectoryEntry → DirectoryEntry
extent_entry blk_sz offset xt length die = record die {
  extent_lba = offset / blk_sz % 2 ^ 32;
  file_flags =
      if sle64 length xt.length
      then bit_and die.file_flags (2 ^ 8 - 1 - tb_cont)
      else bit_or die.file_flags tb_cont;
  length_field = (if sle64 length xt.length then length else xt.length) % 2 ^ 32;
}

-- The loop over the extents. `die` is the record that the iteration before left.
unfoldable pub file_entries :
    ℕ → Media → Colonies → List Extent → ℕ → DirectoryEntry → Option (List DirectoryEntry)
file_entries blk_sz media src_to_trg [] length die = some []
file_entries blk_sz media src_to_trg (xt ∷ xts) length die = do
  offset ← within_disk media xt src_to_trg
  let die' = extent_entry blk_sz offset xt length die
  dies ← file_entries blk_sz media src_to_trg xts (sub64 length xt.length) die'
  some (die' ∷ dies)

-- The record of a sub-folder, whose extent on the target starts at `offset`.
unfoldable pub folder_entry : ℕ → ℕ → ℕ → DirectoryEntry → DirectoryEntry
folder_entry blk_sz offset length die = record die {
  file_flags = bit_or die.file_flags folder_flag;
  extent_lba = offset / blk_sz % 2 ^ 32;
  length_field = length % 2 ^ 32;
}
