-- ===== src/Cd/Naming.antt =====
-- How CD9660Out::plan names the entries of a folder and sorts them. Each folder has a new pool, so
-- naming one reads nothing that planning another one changes.
use fsview.Base.{ℕ, Bool, Option, some, List, [], ◌∷◌, ◌>>=◌, map}
use fsview.Extent.{Extent}
use fsview.Text.{Unicode, Pack, compress}
use fsview.Names.{NameRule, UniqName, NamePool, fit_name}
use fsview.Names.Order.{Sign, below, same, above, cmp}
use fsview.Cd.{DirEntryDtTime}
use fsview.Cd.Folders.{NamedEntry, Folder}

-- An entry of the source tree.
pub record Entry : Type 0 where
  pub ptr : ℕ
  pub decoded : Unicode
  pub is_file : Bool
  pub mtime : DirEntryDtTime
  pub st_size : ℕ
  pub layout : List Extent

-- `entries[name] = pEnt`: a name that compares as the same keeps its key.
unfoldable pub insert_entry :
    Sign
    → UniqName
    → Entry
    → UniqName × Entry
    → List (UniqName × Entry)
    → List (UniqName × Entry)
    → List (UniqName × Entry)
insert_entry below name e (key, old) rest inserted = (name, e) ∷ (key, old) ∷ rest
insert_entry same name e (key, old) rest inserted = (key, e) ∷ rest
insert_entry above name e (key, old) rest inserted = (key, old) ∷ inserted

unfoldable pub put_entry : UniqName → Entry → List (UniqName × Entry) → List (UniqName × Entry)
unfolding insert_entry
put_entry name e [] = (name, e) ∷ []
put_entry name e ((key, old) ∷ rest) =
    insert_entry (cmp name.conv name.seps key.conv key.seps) name e (key, old) rest
      (put_entry name e rest)

-- The loop over the entries. `shuf` is what rand() answers for an entry and an attempt, and `fuel` is
-- for the attempts of fitName.
unfoldable pub name_entries :
    ℕ
    → NameRule
    → (ℕ → ℕ → ℕ)
    → List Entry
    → NamePool
    → List (UniqName × Entry)
    → Option (List (UniqName × Entry))
unfolding put_entry
name_entries fuel rule shuf [] pool named = some named
name_entries fuel rule shuf (e ∷ es) pool named = do
  (name, pool') ← fit_name fuel rule (shuf e.ptr) e.decoded e.is_file pool
  name_entries fuel rule shuf es pool' (put_entry name e named)

-- What the second loop takes of an entry.
abbrev pub encoded : Pack → UniqName × Entry → NamedEntry
encoded pack (name, e) = record {
  entry_ptr = e.ptr;
  is_file = e.is_file;
  conv = name.conv;
  enc_name = compress pack name.conv;
  mtime = e.mtime;
  st_size = e.st_size;
  layout = e.layout;
}

-- The folder as the loop over the folders has it.
unfoldable pub name_folder :
    ℕ → NameRule → Pack → (ℕ → ℕ → ℕ) → ℕ → ℕ → DirEntryDtTime → List Entry → Option Folder
unfolding name_entries
name_folder fuel rule pack shuf ptr parent_ptr dir_mtime entries = do
  named ← name_entries fuel rule shuf entries (record { conv_to_link = []; link_to_conv = [] }) []
  some (record {
    ptr = ptr;
    parent_ptr = parent_ptr;
    dir_mtime = dir_mtime;
    entries = map (encoded pack) named;
  })
