-- ===== src/Cd/Plan.antt =====
-- What CD9660Out::plan calls in its order. The media of the two path tables of a volume, and of its
-- descriptor, are at the pointers that its Slots name.
pub mod Front
use fsview.Base.{
  ℕ, ◌/◌, ◌%◌, ◌^◌, Bool, true, false, Option, some, List, [], ◌∷◌, ◌++◌, if◌then◌else◌, length,
  take, ◌>>=◌,
}
use fsview.Base.SortedMap.{insert, lookup_or}
use fsview.Base.Words.{add64, sub64}
use fsview.Extent.{Media}
use fsview.Burner.{Planner, append, auto_pad, wrap_to_go, block_size}
use fsview.Device.{Colonies, Geometry, write_files}
use fsview.Volume.{Slave, plan_reserved}
use fsview.Cd.{DirectoryEntry, wrap_folder}
use fsview.Cd.PathTable.{PathEntry, pointer, FolDef, walk_from, table_bytes}
use fsview.Cd.Descriptors.{GenVolDesc, primary_vol, supplement, temp_extent, plan_headers}
use fsview.Cd.Folders.{Folder, no_def, VolumePlan, plan_folders}

-- The keys of `_volumes`, in their order, after CD9660Out::CD9660Out.
abbrev pub volume_types : Bool → List ℕ
volume_types with_unicode = primary_vol ∷ (if with_unicode then supplement ∷ [] else [])

pub record Slots : Type 0 where
  pub pt_lsb : ℕ
  pub pt_msb : ℕ

-- Both tables are appended, and their places set. The size is that of a table before it is wrapped.
unfoldable pub place_tables :
    ℕ → ℕ → Slots → List ℕ → List ℕ → GenVolDesc → Planner → Option (GenVolDesc × Planner)
place_tables blk_sz tmp_to_out slots lsb msb vol tmp = do
  (lsb_off, tmp1) ← append (temp_extent (length (wrap_folder blk_sz lsb)) slots.pt_lsb) tmp
  (msb_off, tmp2) ← append (temp_extent (length (wrap_folder blk_sz msb)) slots.pt_msb) tmp1
  some (
    record vol {
      p_tab_sz = length lsb % 2 ^ 32;
      p_tab_lsb = add64 lsb_off tmp_to_out / blk_sz % 2 ^ 32;
      p_tab_msb = add64 msb_off tmp_to_out / blk_sz % 2 ^ 32;
    },
    tmp2,
  )

-- The record of the root, which gets the length of its folder, and the name of one character.
abbrev pub root_record : FolDef → DirectoryEntry → DirectoryEntry
root_record def dot = record dot { name_data = 0; length_field = def.extent_length % 2 ^ 32 }

abbrev pub name_root : ℕ → List (ℕ × FolDef) → ℕ → FolDef
name_root root folders ptr =
    let def = lookup_or root no_def folders in
    let named = record def { enc_name = take 1 (def.enc_name ++ (0 ∷ [])) } in
    lookup_or ptr no_def (insert root named folders)

-- The path tables of a volume whose folders are planned. `fuel` is for the walk over the tree.
unfoldable pub plan_tables :
    ℕ → ℕ → Slots → PathEntry → ℕ → GenVolDesc → VolumePlan → Option (GenVolDesc × Planner)
unfolding place_tables
plan_tables blk_sz tmp_to_out slots root fuel vol planned =
    let defs = name_root (pointer root) planned.folders in
    let own = root_record (defs (pointer root)) planned.dot in
    do
      rows ← walk_from defs fuel root
      lsb ← table_bytes true defs blk_sz rows
      msb ← table_bytes false defs blk_sz rows
      place_tables blk_sz tmp_to_out slots lsb msb (record vol { root_directory = own }) planned.tmp

-- The function that `plan` hands to planVolumes, with what is read by `dirs` of the volume.
unfoldable pub plan_volume :
    Media
    → Colonies
    → ℕ
    → List Folder
    → Slots
    → PathEntry
    → ℕ
    → GenVolDesc
    → Planner
    → Option (GenVolDesc × Planner)
unfolding plan_tables
plan_volume media src_to_trg tmp_to_out dirs slots root fuel vol tmp = do
  planned ←
      plan_folders vol.blk_sz media src_to_trg tmp_to_out dirs
        (record { tmp = tmp; dot = vol.root_directory; burners = []; folders = []; parents = [] })
  plan_tables vol.blk_sz tmp_to_out slots root fuel vol planned

-- planVolumes, whose offset is not used.
unfoldable pub plan_volumes :
    {V : Type 0}
    → (V → Planner → Option (V × Planner))
    → List V
    → Planner
    → Option (List V × Planner)
plan_volumes fs_gen [] tmp = some ([], tmp)
plan_volumes fs_gen (vol ∷ vols) tmp = do
  (vol', tmp1) ← fs_gen vol tmp
  (vols', tmp2) ← plan_volumes fs_gen vols tmp1
  some (vol' ∷ vols', tmp2)

-- An extent that the planner of the metadata wraps goes to the output, which is padded then.
unfoldable pub hand_over : Media → ℕ → Planner → Planner → Option (Planner × Planner)
hand_over media since out tmp = do
  (wrapped, tmp1) ← wrap_to_go media since tmp
  (_, out1) ← append wrapped out
  (_, out2) ← auto_pad media out1
  some (out2, tmp1)

-- The reserved area and the headers.
unfoldable pub plan_front :
    Media → Option Slave → ℕ → List ℕ → ℕ → Planner → Planner → Option (Planner × Planner)
unfolding hand_over
plan_front media slave blk_sz vols end_vol out tmp = do
  (out1, tmp1) ← plan_reserved slave out tmp 0x8000
  (since, tmp2) ← plan_headers blk_sz vols end_vol tmp1
  hand_over media since out1 tmp2

-- CD9660Out::plan, with the size that it hands to setSize. `fs_gen` gets the answer of writeFiles and
-- tmpToOut.
unfoldable pub plan :
    {V : Type 0}
    → Media
    → Option Slave
    → ℕ
    → List ℕ
    → ℕ
    → Geometry
    → (Colonies → ℕ → V → Planner → Option (V × Planner))
    → List V
    → Planner
    → Planner
    → Option (Colonies × List V × ℕ × Planner × Planner)
unfolding plan_front plan_volumes
plan media slave blk_sz heads end_vol tree fs_gen vols out tmp = do
  (out1, tmp1) ← plan_front media slave blk_sz heads end_vol out tmp
  (src_to_trg, out2) ← write_files (block_size media out1) tree out1
  (vols', tmp2) ← plan_volumes (fs_gen src_to_trg (sub64 out2.offset tmp1.offset)) vols tmp1
  (out3, tmp3) ← hand_over media tmp1.offset out2 tmp2
  some (src_to_trg, vols', out3.offset, out3, tmp3)
