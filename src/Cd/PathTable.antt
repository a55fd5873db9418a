-- ===== src/Cd/PathTable.antt =====
-- The path table of CD9660Out::plan: the folders level by level, each with the number of its parent.
-- A PathEntry * is the entry with what is below it, and `fsFolders` a function of its pointer. The
-- keys are the strings `order`: the level, the number of the parent, and the name.
pub mod Parents
pub mod Keys
pub mod Children
pub mod Complete
use fsview.Base.{
  ℕ, zero, suc, ◌+◌, ◌*◌, ◌/◌, ◌%◌, Bool, true, false, ◌&&◌, ◌||◌, Option, none, some, List, [],
  ◌∷◌, ◌++◌, if◌then◌else◌, ◌==◌, ltb, length, ◌>>=◌,
}
use fsview.Text.{Unicode}
use fsview.Endian.{lsb, msb}
use fsview.Burner.{slice}

mutual
  pub data PathEntry : Type 0 where
    path_entry : ℕ → EntryList → PathEntry

  pub data EntryList : Type 0 where
    no_entries : EntryList
    file_child : ℕ → EntryList → EntryList
    path_child : PathEntry → EntryList → EntryList

abbrev pub pointer : PathEntry → ℕ
pointer (path_entry ptr es) = ptr

pub record FolDef : Type 0 where
  pub extent_offset : ℕ
  pub extent_length : ℕ
  pub conv : Unicode
  pub enc_name : List ℕ

pub record Order : Type 0 where
  pub level : ℕ
  pub daddy : ℕ
  pub name : Unicode

abbrev pub key : Order → List ℕ
key o = o.level ∷ o.daddy ∷ o.name

-- operator< and operator== of strings.
abbrev pub key_below : List ℕ → List ℕ → Bool
key_below xs [] = false
key_below [] (y ∷ ys) = true
key_below (x ∷ xs) (y ∷ ys) = ltb x y || ((x == y) && key_below xs ys)

abbrev pub same_key : List ℕ → List ℕ → Bool
same_key [] [] = true
same_key [] (y ∷ ys) = false
same_key (x ∷ xs) [] = false
same_key (x ∷ xs) (y ∷ ys) = (x == y) && same_key xs ys

abbrev pub PathTab : Type 0
PathTab = List (Order × PathEntry)

-- `pTab[order] = entry`
unfoldable pub table_insert : Order → PathEntry → PathTab → PathTab
table_insert o e [] = (o, e) ∷ []
table_insert o e ((j, f) ∷ tab) =
    if same_key (key o) (key j)
    then (j, e) ∷ tab
    else if key_below (key o) (key j)
    then (o, e) ∷ (j, f) ∷ tab
    else (j, f) ∷ table_insert o e tab

-- The elements that an iterator at `o` has in front of it.
unfoldable pub next_after : Order → PathTab → PathTab
next_after o [] = []
next_after o ((j, f) ∷ tab) = if key_below (key o) (key j) then (j, f) ∷ tab else next_after o tab

-- The loop over the entries of a folder, which are given the next level and its number.
unfoldable pub add_children : (ℕ → FolDef) → ℕ → ℕ → EntryList → PathTab → PathTab
add_children folders level daddy no_entries tab = tab
add_children folders level daddy (file_child ptr es) tab = add_children folders level daddy es tab
add_children folders level daddy (path_child e es) tab = add_children folders level daddy es (
    table_insert (record { level = level; daddy = daddy; name = (folders (pointer e)).conv }) e tab)

abbrev pub path_tb_cap : ℕ
path_tb_cap = 65536

-- The loop over the table: the folders in their order, with the numbers of their parents. `current` is
-- what the iterator has in front of it; `none` means that the fuel ran out.
unfoldable pub walk : (ℕ → FolDef) → ℕ → PathTab → PathTab → ℕ → Option (List (ℕ × ℕ))
walk folders fuel tab [] daddy = some []
walk folders zero tab (cur ∷ later) daddy = none
walk folders (suc fuel) tab ((o, path_entry ptr es) ∷ later) daddy =
    let tab' = add_children folders (o.level + 1) daddy es tab in
    let visited = walk folders fuel tab' (next_after o tab') (daddy + 1) in
    if ltb daddy path_tb_cap then (visited >>= (λ rows. some ((ptr, o.daddy) ∷ rows))) else some []

abbrev pub root_order : Order
root_order = record { level = 1; daddy = 1; name = 0 ∷ [] }

abbrev pub walk_from : (ℕ → FolDef) → ℕ → PathEntry → Option (List (ℕ × ℕ))
walk_from folders fuel root =
    walk folders fuel ((root_order, root) ∷ []) ((root_order, root) ∷ []) 1

-- PathTableEntry<L>, and its text with the zero behind an odd one.
abbrev pub table_text_size : ℕ → ℕ
table_text_size name_len = (name_len % 256 + 1) / 2 * 2

unfoldable pub row_bytes : Bool → (ℕ → FolDef) → ℕ → ℕ × ℕ → Option (List ℕ)
row_bytes l folders blk_sz (ptr, parent_seq) =
    let def = folders ptr in
    let word = if l then lsb else msb in
    do
      text ← slice 0 (table_text_size (length def.enc_name)) (def.enc_name ++ (0 ∷ []))
      some (
          (length def.enc_name % 256) ∷ 0 ∷ word 4 (def.extent_offset / blk_sz)
          ++ (word 2 parent_seq ++ text))

unfoldable pub table_bytes : Bool → (ℕ → FolDef) → ℕ → List (ℕ × ℕ) → Option (List ℕ)
unfolding row_bytes
table_bytes l folders blk_sz [] = some []
table_bytes l folders blk_sz (row ∷ rows) = do
  bytes ← row_bytes l folders blk_sz row
  rest ← table_bytes l folders blk_sz rows
  some (bytes ++ rest)
