-- ===== src/Cd/Folders.antt =====
-- The loop of CD9660Out::plan over the folders of a volume, with the actions that Later keeps for the
-- time when the place of a folder is known. A folder comes with its entries as the pool has named
-- them and in the order of their names; its burner is the memory at its own pointer.
pub mod Links
pub mod Parents
pub mod Rounds
pub mod Steps
pub mod Waiting
use fsview.Base.{
  ℕ, ◌+◌, ◌-◌, ◌*◌, ◌/◌, ◌%◌, ◌^◌, bit_or, Bool, true, false, Option, none, some, List, [], ◌∷◌,
  ◌++◌, if◌then◌else◌, length, take, drop, ◌>>=◌, ◌==◌,
}
use fsview.Base.SortedMap.{insert, lookup, lookup_or}
use fsview.Base.Words.{add64}
use fsview.Text.{Unicode}
use fsview.Extent.{Extent, Media}
use fsview.Burner.{Planner, append}
use fsview.Device.{Colonies}
use fsview.Cd.{
  DirEntryDtTime, DirectoryEntry, new_entry, set_enc_name, entry_bytes, write_entries, wrap_folder,
  both,
}
use fsview.Cd.Files.{folder_flag, file_entries, folder_entry}
use fsview.Cd.PathTable.{FolDef}

-- An entry of a folder: its name in the volume, and what its record takes from it.
pub record NamedEntry : Type 0 where
  pub entry_ptr : ℕ
  pub is_file : Bool
  pub conv : Unicode
  pub enc_name : List ℕ
  pub mtime : DirEntryDtTime
  pub st_size : ℕ
  pub layout : List Extent

pub record Folder : Type 0 where
  pub ptr : ℕ
  pub parent_ptr : ℕ
  pub dir_mtime : DirEntryDtTime
  pub entries : List NamedEntry

abbrev pub no_def : FolDef
no_def = record { extent_offset = 0; extent_length = 0; conv = []; enc_name = [] }

-- A Later::Use of the second record of a folder, for the time when its parent is placed.
pub record Use : Type 0 where
  pub use_of : ℕ
  pub field : DirectoryEntry

pub record VolumePlan : Type 0 where
  pub tmp : Planner
  pub dot : DirectoryEntry
  pub burners : List (ℕ × List ℕ)
  pub folders : List (ℕ × FolDef)
  pub parents : List (ℕ × List Use)

-- `memcpy( data() + offset, bytes )`.
abbrev pub patch : ℕ → List ℕ → List ℕ → List ℕ
patch offset bytes out = take offset out ++ (bytes ++ drop (offset + length bytes) out)

-- The records of one entry.
unfoldable pub entry_records :
    ℕ → Media → Colonies → List (ℕ × FolDef) → NamedEntry → Option (List DirectoryEntry)
entry_records blk_sz media src_to_trg folders e =
    let die = set_enc_name e.enc_name (new_entry e.mtime) in
    let def = lookup_or e.entry_ptr no_def folders in
    if e.is_file
    then file_entries blk_sz media src_to_trg e.layout e.st_size die
    else some (folder_entry blk_sz def.extent_offset def.extent_length die ∷ [])

abbrev pub with_name : List ℕ → List DirectoryEntry → List (DirectoryEntry × List ℕ)
with_name enc [] = []
with_name enc (die ∷ dies) = (die, enc) ∷ with_name enc dies

-- The loop over the entries: what is written for them, and the names for the path table.
unfoldable pub each_entry :
    ℕ
    → Media
    → Colonies
    → List NamedEntry
    → List ℕ
    → List (ℕ × FolDef)
    → Option (List ℕ × List (ℕ × FolDef))
unfolding entry_records
each_entry blk_sz media src_to_trg [] out folders = some (out, folders)
each_entry blk_sz media src_to_trg (e ∷ es) out folders = do
  dies ← entry_records blk_sz media src_to_trg folders e
  out' ← write_entries blk_sz (with_name e.enc_name dies) out
  let def = lookup_or e.entry_ptr no_def folders
  let named = insert e.entry_ptr (record def { conv = e.conv; enc_name = e.enc_name }) folders
  each_entry blk_sz media src_to_trg es out' (if e.is_file then folders else named)

-- `use( ownExtent )`: the second record of a folder gets the time, the place and the length of its parent.
unfoldable pub apply_use : ℕ → DirEntryDtTime → ℕ → ℕ → Use → List (ℕ × List ℕ) → List (ℕ × List ℕ)
apply_use blk_sz time offset len use_it burners =
    let lfield = record (use_it.field) {
      date_time = time;
      extent_lba = offset / blk_sz % 2 ^ 32;
      length_field = len % 2 ^ 32;
    } in
    insert use_it.use_of (patch 34 (entry_bytes lfield) (lookup_or use_it.use_of [] burners))
      burners

unfoldable pub catch_up :
    ℕ → DirEntryDtTime → ℕ → ℕ → List Use → List (ℕ × List ℕ) → List (ℕ × List ℕ)
unfolding apply_use
catch_up blk_sz time offset len [] burners = burners
catch_up blk_sz time offset len (use_it ∷ uses) burners =
    catch_up blk_sz time offset len uses (apply_use blk_sz time offset len use_it burners)

-- The first two records of a folder at `offset`: itself and, for now, itself as its parent.
abbrev pub own_dot : ℕ → ℕ → Folder → DirectoryEntry → DirectoryEntry
own_dot blk_sz offset dir dot = record dot {
  date_time = dir.dir_mtime;
  file_flags = bit_or dot.file_flags folder_flag;
  extent_lba = offset / blk_sz % 2 ^ 32;
  name_data = 0;
}

abbrev pub parent_dot : ℕ → ℕ → Folder → DirectoryEntry → DirectoryEntry
parent_dot blk_sz offset dir dot = record (own_dot blk_sz offset dir dot) { name_data = 1 }

-- `parents[parent].push_back( ... )`.
abbrev pub noted : ℕ → ℕ → Folder → VolumePlan → List (ℕ × List Use)
noted blk_sz dir_offset dir vol =
    let waiting : Use = record {
      use_of = dir.ptr;
      field = parent_dot blk_sz dir_offset dir vol.dot;
    } in
    insert dir.parent_ptr (lookup_or dir.parent_ptr [] vol.parents ++ (waiting ∷ [])) vol.parents

-- Where `whole` is what the folder's burner holds: its length and its place are written where
-- they are waited for.
unfoldable pub close_folder :
    ℕ → ℕ → Folder → VolumePlan → List ℕ → List (ℕ × FolDef) → Planner → VolumePlan
unfolding catch_up
close_folder blk_sz dir_offset dir vol whole folders tmp =
    let parents = noted blk_sz dir_offset dir vol in
    let sized = patch 10 (both 4 (length whole % 2 ^ 32)) whole in
    let def = lookup_or dir.ptr no_def folders in
    record {
      tmp = tmp;
      dot = parent_dot blk_sz dir_offset dir vol.dot;
      burners =
          catch_up blk_sz dir.dir_mtime dir_offset (length whole) (lookup_or dir.ptr [] parents)
            (insert dir.ptr sized vol.burners);
      folders =
          insert dir.ptr (record def { extent_offset = dir_offset; extent_length = length whole })
            folders;
      parents = parents;
    }

-- `tmpPlanner.append( WrapToGo( dirBurner ) )`, and what follows it.
unfoldable pub append_folder :
    ℕ → ℕ → Folder → VolumePlan → List ℕ → List (ℕ × FolDef) → Option VolumePlan
unfolding close_folder
append_folder blk_sz dir_offset dir vol whole folders = do
  (placed, tmp) ←
      append (record { offset = 0; length = length whole; medium = some dir.ptr }) vol.tmp
  some (close_folder blk_sz dir_offset dir vol whole folders tmp)

-- One round of the loop.
unfoldable pub plan_folder : ℕ → Media → Colonies → ℕ → Folder → VolumePlan → Option VolumePlan
unfolding each_entry append_folder
plan_folder blk_sz media src_to_trg tmp_to_out dir vol =
    let dir_offset = add64 vol.tmp.offset tmp_to_out in
    let own = own_dot blk_sz dir_offset dir vol.dot in
    let up = parent_dot blk_sz dir_offset dir vol.dot in
    do
      (out, folders) ←
          each_entry blk_sz media src_to_trg dir.entries (entry_bytes own ++ entry_bytes up)
            vol.folders
      append_folder blk_sz dir_offset dir vol (wrap_folder blk_sz out) folders

-- The whole loop; `dirs` are those of the path table, the last one first.
unfoldable pub plan_folders :
    ℕ → Media → Colonies → ℕ → List Folder → VolumePlan → Option VolumePlan
unfolding plan_folder
plan_folders blk_sz media src_to_trg tmp_to_out [] vol = some vol
plan_folders blk_sz media src_to_trg tmp_to_out (dir ∷ dirs) vol = do
  vol' ← plan_folder blk_sz media src_to_trg tmp_to_out dir vol
  plan_folders blk_sz media src_to_trg tmp_to_out dirs vol'
