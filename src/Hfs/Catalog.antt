-- ===== src/Hfs/Catalog.antt =====
-- HFSPlusVolumeBuilder of impl/hfplus.h and impl/hfplus.cpp: the catalog with its threads, and the
-- numbers of the nodes.
pub mod Threads
use fsview.Base.{
  ℕ, zero, suc, ◌+◌, ◌-◌, ◌*◌, ◌/◌, ◌%◌, ◌^◌, Bool, true, false, ◌&&◌, ◌||◌, not, Option, none,
  some, List, [], ◌∷◌, ◌++◌, map, length, if◌then◌else◌, ltb, leb, ◌==◌, ◌>>=◌,
}
use fsview.Text.{Unicode, correct, hang_deco, iso_parse}
use fsview.Text.Euro.{euro_deco}
use fsview.Extent.{round_up}
use fsview.Hfs.Forks.{
  u16, concat, HfsPlusExtentDescriptor, HfsPlusExtentRecord, set, no_extents, HfsPlusForkData,
}
use fsview.Hfs.Entries.{
  Stat, HfsPlusCatalogEntry, set_times, HfsPlusCatalogFolder, folder_bytes, HfsPlusCatalogFile,
  file_bytes, HfsPlusCatalogThread, new_thread, thread_bytes, HfsPlusCatalogKey, catalog_key_bytes,
  same_parent, parent_below, HfsPlusExtentKey, same_extent_key, extent_key_below,
}
use fsview.Hfs.Tree.{Recordable}

-- A MacString: a UniChar keeps 16 bits of a character.
abbrev pub mac_string : Unicode → List ℕ
mac_string decompo = map (λ wc. wc % 2 ^ 16) decompo

-- NamedRecord<HFSPlusCatalogKey>.
pub record NamedCatalogKey : Type 0 where
  pub key_data : HfsPlusCatalogKey
  pub key_name : List ℕ

abbrev pub name_size : List ℕ → ℕ
name_size name = 2 * length name

abbrev pub set_name : List ℕ → NamedCatalogKey → NamedCatalogKey
set_name name key = record {
  key_data = record (key.key_data) { key_name_length = length name % 2 ^ 16 };
  key_name = name;
}

abbrev pub name_bytes : List ℕ → List ℕ
name_bytes name = concat (map u16 name)

instance abbrev pub named_key_record : Recordable NamedCatalogKey
named_key_record = record {
  record_size = λ key. 8 + name_size key.key_name;
  as_extents = λ key. catalog_key_bytes key.key_data ∷ name_bytes key.key_name ∷ [];
}

-- The record of a folder or a file has no name of its own.
pub data CatalogRecord : Type 0 where
  folder_record : HfsPlusCatalogFolder → CatalogRecord
  file_record : HfsPlusCatalogFile → CatalogRecord
  thread_record : HfsPlusCatalogThread → List ℕ → CatalogRecord

instance abbrev pub catalog_record : Recordable CatalogRecord
unfolding folder_bytes file_bytes
catalog_record = record { record_size = size_of; as_extents = extents_of }
  where
    size_of : CatalogRecord → ℕ
    size_of (CatalogRecord.folder_record folder) = 88
    size_of (CatalogRecord.file_record file) = 248
    size_of (CatalogRecord.thread_record thread name) = 10 + name_size name

    extents_of : CatalogRecord → List (List ℕ)
    extents_of (CatalogRecord.folder_record folder) = folder_bytes folder ∷ [] ∷ []
    extents_of (CatalogRecord.file_record file) = file_bytes file ∷ [] ∷ []
    extents_of (CatalogRecord.thread_record thread name) =
        thread_bytes thread ∷ name_bytes name ∷ []

-- operator< and operator== of vectors, and of named records.
abbrev pub name_below : List ℕ → List ℕ → Bool
name_below xs [] = false
name_below [] (y ∷ ys) = true
name_below (x ∷ xs) (y ∷ ys) = ltb x y || ((x == y) && name_below xs ys)

abbrev pub same_name : List ℕ → List ℕ → Bool
same_name [] [] = true
same_name [] (y ∷ ys) = false
same_name (x ∷ xs) [] = false
same_name (x ∷ xs) (y ∷ ys) = (x == y) && same_name xs ys

unfoldable pub same_named : NamedCatalogKey → NamedCatalogKey → Bool
unfolding same_parent
same_named a b = same_parent a.key_data b.key_data && same_name a.key_name b.key_name

unfoldable pub named_below : NamedCatalogKey → NamedCatalogKey → Bool
unfolding same_parent parent_below
named_below a b =
    parent_below a.key_data b.key_data
    || (same_parent a.key_data b.key_data && name_below a.key_name b.key_name)

-- std::map of named keys: insert() leaves a key that is there as it is.
abbrev pub Catalog : Type 0
Catalog = List (NamedCatalogKey × CatalogRecord)

unfoldable pub insert_record : NamedCatalogKey → CatalogRecord → Catalog → Catalog
unfolding same_named named_below
insert_record key rec [] = (key, rec) ∷ []
insert_record key rec ((k, v) ∷ catalog) =
    if same_named key k
    then (k, v) ∷ catalog
    else if named_below key k
    then (key, rec) ∷ (k, v) ∷ catalog
    else (k, v) ∷ insert_record key rec catalog

unfoldable pub find_record : NamedCatalogKey → Catalog → Option CatalogRecord
unfolding same_named
find_record key [] = none
find_record key ((k, v) ∷ catalog) = if same_named key k then some v else find_record key catalog

-- The key with its own length in it.
abbrev pub new_key : ℕ → List ℕ → NamedCatalogKey
new_key parent_id name = record {
  key_data = record {
    key_length = (8 + name_size name - 2) % 2 ^ 16;
    parent_id = parent_id;
    key_name_length = length name % 2 ^ 16;
  };
  key_name = name;
}

-- _vb.decompo: an empty name is the one of the root, which gets the label of the volume.
-- `signed` tells whether a char is signed on the host.
unfoldable pub decompo : Bool → List ℕ → Unicode → Option Unicode
decompo signed label [] = some (iso_parse signed label)
decompo signed label (c ∷ name) = correct euro_deco (c ∷ name) >>= correct hang_deco

-- The thread of an entry is its child, and names its parent and the entry.
abbrev pub thread_of : Bool → ℕ → List ℕ → CatalogRecord
thread_of is_dir parent_id name =
    CatalogRecord.thread_record
      (record (new_thread is_dir) {
        thread_parent_id = parent_id;
        thread_name_length = length name % 2 ^ 16;
      })
      name

-- onEntry of an entry whose node has the number `node_id`, below the node `parent_id`. `fill` puts the
-- numbers and the times into the record of the entry.
unfoldable pub on_entry :
    Bool → List ℕ → Bool → ℕ → ℕ → Unicode → CatalogRecord → Catalog → Option Catalog
unfolding decompo insert_record
on_entry signed label is_dir parent_id node_id decoded rec catalog =
    decompo signed label decoded >>= (λ name. some (
      insert_record (new_key node_id []) (thread_of is_dir parent_id (mac_string name))
        (insert_record (new_key parent_id (mac_string name)) rec catalog)))

-- What onEntry sets in the entry.
unfoldable pub fill_entry : Stat → ℕ → HfsPlusCatalogEntry → HfsPlusCatalogEntry
unfolding set_times
fill_entry st node_id entry = record (set_times st entry) { node_id = node_id }

-- _vb.renum, with the numbers seen so far: a CNID has 32 bits, and the root is 2.
unfoldable pub renum : ℕ → ℕ → List ℕ → ℕ × List ℕ
renum iroot st_ino inode_ids =
    if st_ino % 2 ^ 32 == iroot % 2 ^ 32
    then (2, inode_ids)
    else (st_ino % 2 ^ 32, st_ino % 2 ^ 32 ∷ inode_ids)

-- TopUnused over the numbers in descending order; `none` where it reads past the last one.
unfoldable pub top_unused : ℕ → List ℕ → Option ℕ
top_unused candy [] = none
top_unused candy (top ∷ below) =
    let rest = top_unused (if candy == top then top - 1 else candy) below in
    if leb candy top then rest else some candy
