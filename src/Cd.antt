-- ===== src/Cd.antt =====
-- Directory records of impl/cd9660.h, and the lambda writeEntry of CD9660Out::plan. A field of n
-- bytes keeps what is assigned to it modulo 256 ^ n. `none` is a read past the end of a string.
pub mod Records
pub mod Written
pub mod Files
pub mod PathTable
pub mod Dates
pub mod Descriptors
pub mod Folders
pub mod Naming
pub mod Plan
mod Tests
use fsview.Base.{
  ℕ, zero, suc, ◌+◌, ◌-◌, ◌*◌, ◌/◌, ◌%◌, ◌^◌, bit_or, Bool, true, false, Option, none, some, List,
  [], ◌∷◌, ◌++◌, if◌then◌else◌, ◌==◌, ltb, leb, length, take, drop, replicate, ◌>>=◌,
}
use fsview.Base.Words.{sub64}
use fsview.Endian.{lsb, msb}
use fsview.Extent.{padding}
use fsview.Burner.{slice}

-- Both halves of a Bilateral: the bytes in either order.
abbrev pub both : ℕ → ℕ → List ℕ
both n x = lsb n x ++ msb n x

pub record DirEntryDtTime : Type 0 where
  pub year : ℕ
  pub month : ℕ
  pub day : ℕ
  pub hour : ℕ
  pub minute : ℕ
  pub second : ℕ
  pub tzone : ℕ

abbrev pub dt_time_bytes : DirEntryDtTime → List ℕ
dt_time_bytes t =
    t.year % 256
    ∷ t.month % 256
    ∷ t.day % 256
    ∷ t.hour % 256
    ∷ t.minute % 256
    ∷ t.second % 256
    ∷ t.tzone % 256
    ∷ []

pub record DirectoryEntry : Type 0 where
  pub entry_sz : ℕ
  pub x_attr_sz : ℕ
  pub extent_lba : ℕ
  pub length_field : ℕ
  pub date_time : DirEntryDtTime
  pub file_flags : ℕ
  pub unit : ℕ
  pub gap : ℕ
  pub vol_seq_no : ℕ
  pub name_size : ℕ
  pub name_data : ℕ

-- A new record. Its time is not initialised, so it is an argument.
abbrev pub new_entry : DirEntryDtTime → DirectoryEntry
new_entry time = record {
  entry_sz = 34;
  x_attr_sz = 0;
  extent_lba = 0;
  length_field = 0;
  date_time = time;
  file_flags = 0;
  unit = 0;
  gap = 0;
  vol_seq_no = 1;
  name_size = 1;
  name_data = 0;
}

-- What follows the size of a record, up to `fileName.data`.
unfoldable pub after_size : DirectoryEntry → List ℕ
after_size e =
    e.x_attr_sz % 256 ∷ both 4 e.extent_lba
    ++ (both 4 e.length_field
        ++ (dt_time_bytes e.date_time
            ++ (e.file_flags % 256 ∷ e.unit % 256 ∷ e.gap % 256 ∷ both 2 e.vol_seq_no
                ++ (e.name_size % 256 ∷ []))))

abbrev pub header_bytes : DirectoryEntry → List ℕ
header_bytes e = e.entry_sz % 256 ∷ after_size e

-- The whole record, with the one character of its name.
abbrev pub entry_bytes : DirectoryEntry → List ℕ
entry_bytes e = header_bytes e ++ (e.name_data % 256 ∷ [])

-- DirectoryEntry::size and textSize: `& ~1` clears the lowest bit.
abbrev pub size : DirectoryEntry → ℕ
size e = (34 + e.name_size) / 2 * 2

abbrev pub text_size : DirectoryEntry → ℕ
text_size e = sub64 e.entry_sz 33

-- The name and the size of a record, from the encoded name.
unfoldable pub set_enc_name : List ℕ → DirectoryEntry → DirectoryEntry
set_enc_name enc e =
    let named = record e { name_size = length enc % 256 } in
    record named { entry_sz = size named % 256 }

abbrev pub zeros : ℕ → List ℕ
zeros n = replicate n 0

-- writeEntry, on the bytes of the directory so far. `enc.data()` ends in a zero.
unfoldable pub write_entry : ℕ → DirectoryEntry → List ℕ → List ℕ → Option (ℕ × List ℕ)
write_entry blk_sz die enc out =
    let pad = padding (length out) blk_sz in
    let padded = out ++ (if ltb pad die.entry_sz then zeros pad else []) in
    do
      text ← slice 0 (text_size die) (enc ++ (0 ∷ []))
      some (length padded, padded ++ (header_bytes die ++ text))

-- The records of a folder one after another, each with its encoded name.
unfoldable pub write_entries : ℕ → List (DirectoryEntry × List ℕ) → List ℕ → Option (List ℕ)
unfolding write_entry
write_entries blk_sz [] out = some out
write_entries blk_sz ((die, enc) ∷ dies) out = do
  (cur, out') ← write_entry blk_sz die enc out
  write_entries blk_sz dies out'

-- WrapToGo of the folder's burner: zeros up to the end of the block.
unfoldable pub wrap_folder : ℕ → List ℕ → List ℕ
wrap_folder blk_sz out = out ++ zeros (padding (length out) blk_sz)
