-- ===== src/Cd/Tests.antt =====
-- Small folders and descriptors, and the theorems at concrete inputs.
use fsview.Base.{
  length, if◌then◌else◌, ◌==◌, ℕ, ◌*◌, ◌^◌, ◌≡◌, refl, arith, true, false, List, [], ◌∷◌, Option,
  none, some, All, inl, inr, replicate,
}
use fsview.Base.SortedMap.{insert, lookup, lookup_or}
use fsview.Base.Words.{sadd64}
use fsview.Extent.{Extent, Medium, Media, padding, round_up}
use fsview.Device.{Colonies, within_disk, last_le}
use fsview.Burner.{new_planner, append, block_size}
use fsview.Burner.Image.{total}
use fsview.Burner.Plan.{IsPlanned}
use fsview.Cd.{
  DirEntryDtTime, DirectoryEntry, new_entry, set_enc_name, after_size, write_entry, write_entries,
  wrap_folder,
}
use fsview.Cd.Written.{IsNamed, ReadsBack, write_entries-ReadsBack}
use fsview.Cd.Files.{file_entries, folder_entry}
use fsview.Cd.Files.Sections.{sections, IsRecorded, file_entries-IsRecorded, file_entries-cut}
use fsview.Cd.PathTable.{
  PathEntry, path_entry, no_entries, file_child, path_child, FolDef, walk, walk_from, add_children,
  table_insert, next_after,
}
use fsview.Cd.PathTable.Parents.{ParentsFirst, walk_from-ParentsFirst}
use fsview.Cd.PathTable.Children.{weight, row_total, one}
use fsview.Cd.PathTable.Complete.{walk_from_total}
use fsview.Cd.Dates.{cleared}
use fsview.Cd.Descriptors.{GenVolDesc, primary_vol}
use fsview.Cd.Descriptors.Layout.{IsSized, HasLayout, gen_vol_desc_bytes-HasLayout}
use fsview.Cd.Plan.Front.{FrontAt, plan_front-FrontAt}
use fsview.Cd.Folders.{
  Folder, VolumePlan, plan_folders, plan_folder, each_entry, entry_records, append_folder,
  close_folder, catch_up, apply_use,
}
use fsview.Cd.Folders.Steps.{IsLinked}
use fsview.Cd.Folders.Parents.{plan_folders-IsLinked}

abbrev noon : DirEntryDtTime
noon = record { year = 124; month = 2; day = 29; hour = 12; minute = 0; second = 0; tzone = 48 }

-- "AB" and "C".
abbrev two_files : List (DirectoryEntry × List ℕ)
two_files =
    (record (new_entry noon) { entry_sz = 36; name_size = 2 }, 65 ∷ 66 ∷ [])
    ∷ (new_entry noon, 67 ∷ [])
    ∷ []

two_files-IsNamed : All IsNamed two_files
two_files-IsNamed = (
  record { sized = refl; some_name = omega arith; short_name = omega arith },
  (record { sized = refl; some_name = omega arith; short_name = omega arith }, tt),
)

write_entries-ReadsBack_example : ReadsBack (2 ^ 9) (new_entry noon) (new_entry noon) two_files
write_entries-ReadsBack_example =
    write_entries-ReadsBack 9 (new_entry noon) (new_entry noon) two_files (omega arith)
      (omega arith) refl refl two_files-IsNamed (omega arith)

-- The disk 7, whose bytes from 4096 on come at 65536 of the target.
abbrev disk : Medium
disk = record {
  contents = none;
  block_device = 7;
  is_direct_device = true;
  is_aligned = true;
  id = 7;
  block_size = 512;
}

abbrev disks : Media
disks p = disk

abbrev moved : Colonies
moved = record { area_offset = 65536; plan = (7, (4096, 65536) ∷ []) ∷ [] }

abbrev part : ℕ → ℕ → Extent
part offset length = record { offset = offset; length = length; medium = some 1 }

abbrev parts : List Extent
parts = part 4096 4096 ∷ part 16384 4096 ∷ []

abbrev starts : List ℕ
starts = 65536 ∷ 77824 ∷ []

file_entries-IsRecorded_example :
    (dies : List DirectoryEntry) × (file_entries 2048 disks moved parts 5000 (new_entry noon)
      ≡ some dies)
    × IsRecorded 2048 starts 5000 dies
unfolding within_disk lookup last_le sadd64
file_entries-IsRecorded_example =
    file_entries-IsRecorded 2048 disks moved parts 5000 (new_entry noon) starts (inl refl)
      (refl, omega arith, (refl, omega arith, tt))
      (omega arith, omega arith, omega arith, (omega arith, omega arith, omega arith))

-- A hole at the end of the file.
file_entries-cut_example :
    (dies : List DirectoryEntry) × (file_entries 2048 disks moved parts 9000 (new_entry noon)
      ≡ some dies)
    × (length dies ≡ 2)
    × All (λ (e : DirectoryEntry). e.file_flags ≡ 128) dies
    × (sections dies ≡ none)
unfolding within_disk lookup last_le sadd64
file_entries-cut_example =
    file_entries-cut 2048 disks moved parts 9000 (new_entry noon) starts (inl refl)
      (refl, omega arith, (refl, omega arith, tt))
      (omega arith, omega arith, (omega arith, omega arith, omega arith))

-- A root 1 with the folders 2 and 4 and a file, and a folder 3 in 2.
abbrev tree : PathEntry
tree = path_entry 1 (
    path_child (path_entry 2 (path_child (path_entry 3 no_entries) no_entries))
      (file_child 9 (path_child (path_entry 4 no_entries) no_entries)))

-- Each is named by its number.
abbrev folders : ℕ → FolDef
folders ptr = record {
  extent_offset = 2048 * ptr;
  extent_length = 2048;
  conv = ptr ∷ [];
  enc_name = ptr ∷ [];
}

abbrev rows : List (ℕ × ℕ)
rows = (1, 1) ∷ (2, 1) ∷ (4, 1) ∷ (3, 2) ∷ []

walk_run : walk_from folders 4 tree ≡ some rows
unfolding walk add_children table_insert next_after
walk_run = refl

walk_from-ParentsFirst_example : ParentsFirst tree [] rows
walk_from-ParentsFirst_example = walk_from-ParentsFirst folders 4 tree rows walk_run

walk_from_total_example :
    (found : List (ℕ × ℕ)) × (walk_from folders (weight one tree) tree ≡ some found)
    × ((f : ℕ → ℕ) → row_total f found ≡ weight f tree)
walk_from_total_example =
    walk_from_total folders tree ((refl, tt), (tt, tt, tt), (tt, tt, tt)) (omega arith)

abbrev blank : ℕ → List ℕ
blank n = replicate n 32

abbrev descriptor : GenVolDesc
descriptor = record {
  kind = primary_vol;
  flags = 0;
  system_id = blank 32;
  volume_id = blank 32;
  blocks = 340;
  escape_chars = replicate 32 0;
  vol_set = 1;
  vol_seq = 1;
  blk_sz = 2048;
  p_tab_sz = 10;
  p_tab_lsb = 20;
  p_tab_msb = 21;
  root_directory = new_entry noon;
  volume_set_id = blank 128;
  publisher_id = blank 128;
  prepare_by_id = blank 128;
  application = blank 128;
  copy_file = blank 37;
  abst_file = blank 37;
  bibl_file = blank 37;
  creation = cleared;
  modification = cleared;
  expiration = cleared;
  effective = cleared;
}

descriptor-IsSized : IsSized descriptor
descriptor-IsSized = record {
  system_id = refl;
  volume_id = refl;
  escape_chars = refl;
  volume_set_id = refl;
  publisher_id = refl;
  prepare_by_id = refl;
  application = refl;
  copy_file = refl;
  abst_file = refl;
  bibl_file = refl;
  creation = refl;
  modification = refl;
  expiration = refl;
  effective = refl;
}

gen_vol_desc_bytes-HasLayout_example : HasLayout descriptor
gen_vol_desc_bytes-HasLayout_example = gen_vol_desc_bytes-HasLayout descriptor descriptor-IsSized

start-IsPlanned : IsPlanned (new_planner 0)
unfolding total
start-IsPlanned = record { counted = refl; small = omega arith }

tmp-IsPlanned : IsPlanned (new_planner 5)
unfolding total
tmp-IsPlanned = record { counted = refl; small = omega arith }

-- A disk of blocks of 512 bytes, and a ZRam device of those of 4 KiB at 5.
abbrev devices : Media
devices p = if p == 5 then record disk { block_size = 4096 } else disk

plan_front-FrontAt_example : FrontAt devices (2 ^ 11) (1 ∷ 2 ∷ []) 3 (new_planner 0) (new_planner 5)
unfolding block_size
plan_front-FrontAt_example =
    plan_front-FrontAt devices 11 9 12 (1 ∷ 2 ∷ []) 3 (new_planner 0) (new_planner 5) (omega arith)
      (omega arith) (omega arith) (omega arith) start-IsPlanned tmp-IsPlanned refl refl refl
      (omega arith) (omega arith)

-- The folder 2, "D", in the root 1, and it is planned first.
abbrev two_folders : List Folder
two_folders =
    record { ptr = 2; parent_ptr = 1; dir_mtime = noon; entries = [] }
    ∷ record {
      ptr = 1;
      parent_ptr = 1;
      dir_mtime = noon;
      entries =
          record {
            entry_ptr = 2;
            is_file = false;
            conv = 68 ∷ [];
            enc_name = 68 ∷ [];
            mtime = noon;
            st_size = 0;
            layout = [];
          }
          ∷ [];
    }
    ∷ []

abbrev unplanned : VolumePlan
unplanned = record {
  tmp = new_planner 0;
  dot = new_entry noon;
  burners = [];
  folders = [];
  parents = [];
}

abbrev plan_of : Option VolumePlan → VolumePlan
plan_of none = unplanned
plan_of (some vol) = vol

abbrev planned : VolumePlan
planned = plan_of (plan_folders 128 disks moved 2048 two_folders unplanned)

plan_run : plan_folders 128 disks moved 2048 two_folders unplanned ≡ some planned
unfolding plan_folders plan_folder each_entry entry_records append_folder close_folder catch_up
    apply_use insert lookup append folder_entry set_enc_name write_entries write_entry wrap_folder
    after_size padding round_up
plan_run = refl

plan_folders-IsLinked_example : IsLinked 2 1 planned
unfolding lookup lookup_or
plan_folders-IsLinked_example =
    plan_folders-IsLinked 128 disks moved 2048 2 1 two_folders unplanned planned
      (inl (refl, refl, inr (omega arith, (omega arith, inl (refl, tt))))) (λ k differs. tt)
      plan_run
