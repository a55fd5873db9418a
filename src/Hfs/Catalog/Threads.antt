-- ===== src/Hfs/Catalog/Threads.antt =====
-- Whoever has the number of a node finds its thread, and by the thread its entry.
use fsview.Base.{
  ℕ, ◌≡◌, refl, sym, ◌∙◌, arith, Bool, true, false, none, some, List, [], ◌∷◌, if◌then◌else◌, ◌==◌,
  Bool-cases, inl, inr,
}
use fsview.Text.{Unicode}
use fsview.Hfs.Entries.{same_parent}
use fsview.Hfs.Catalog.{
  NamedCatalogKey, Catalog, CatalogRecord, mac_string, same_name, same_named, named_below,
  insert_record, find_record, new_key, thread_of, decompo, on_entry,
}

same_name-eq : (xs ys : List ℕ) → same_name xs ys ≡ true → xs ≡ ys
same_name-eq [] [] h = refl
same_name-eq [] (y ∷ ys) h = absurd (cc)
same_name-eq (x ∷ xs) [] h = absurd (cc)
same_name-eq (x ∷ xs) (y ∷ ys) h =
    let head : x ≡ y = ground arith in
    let tail : same_name xs ys ≡ true = ground arith in let rest = same_name-eq xs ys tail in cc

same_name_refl : (xs : List ℕ) → same_name xs xs ≡ true
same_name_refl [] = refl
same_name_refl (x ∷ xs) =
    let head : (x == x) ≡ true = ground arith in rw (head, same_name_refl xs) refl

pub same_named_refl : (k : NamedCatalogKey) → same_named k k ≡ true
unfolding same_named same_parent
same_named_refl k =
    let head : (k.key_data.parent_id == k.key_data.parent_id) ≡ true = ground arith in
    rw (head, same_name_refl k.key_name) refl

same_named-parts :
    (a b : NamedCatalogKey)
    → same_named a b ≡ true
    → (a.key_data.parent_id ≡ b.key_data.parent_id) × (a.key_name ≡ b.key_name)
unfolding same_named same_parent
same_named-parts a b h =
    let head : a.key_data.parent_id ≡ b.key_data.parent_id = ground arith in
    let tail : same_name a.key_name b.key_name ≡ true = ground arith in
    (head, same_name-eq a.key_name b.key_name tail)

-- Keys that are the same as a third one are the same.
same_named_trans :
    (i a b : NamedCatalogKey)
    → same_named i a ≡ true
    → same_named i b ≡ true
    → same_named a b ≡ true
unfolding same_named same_parent
same_named_trans i a b ha hb =
    let (pa, na) = same_named-parts i a ha in
    let (pb, nb) = same_named-parts i b hb in
    let head : (a.key_data.parent_id == b.key_data.parent_id) ≡ true = ground arith in
    let names : a.key_name ≡ b.key_name = sym na ∙ nb in
    rw (head, names, same_name_refl b.key_name) refl

apart_sym : (a b : NamedCatalogKey) → same_named a b ≡ false → same_named b a ≡ false
apart_sym a b h = elim (Bool-cases (same_named b a)) [
  | inl e ↦ let same = same_named_trans b a b e (same_named_refl b) in absurd (cc)
  | inr e ↦ e
]

pub find_record-insert_record :
    (i key : NamedCatalogKey) (rec : CatalogRecord) (catalog : Catalog)
    → find_record key catalog ≡ none
    → find_record i (insert_record key rec catalog)
      ≡ (if same_named i key then some rec else find_record i catalog)
unfolding find_record insert_record
find_record-insert_record i key rec [] h = refl
find_record-insert_record i key rec ((k, v) ∷ catalog) h = elim (Bool-cases (same_named key k)) [
  | inl e ↦ let found : find_record key ((k, v) ∷ catalog) ≡ some v = rw e refl in absurd (cc)
  | inr e ↦ elim (Bool-cases (named_below key k)) [
    | inl b ↦ rw (e, b) refl
    | inr b ↦
        let rest : find_record key catalog ≡ none = rw e at h in
        let ih = find_record-insert_record i key rec catalog rest in
        elim (Bool-cases (same_named i k)) [
          | inl ik ↦ elim (Bool-cases (same_named i key)) [
            | inl ikey ↦ let clash = same_named_trans i key k ikey ik in absurd (cc)
            | inr ikey ↦ rw (e, b, ik, ikey) refl
          ]
          | inr ik ↦ rw (e, b, ik) ih
        ]
  ]
]

-- What is found in the catalog after onEntry: the thread, the entry, and what was there.
pub Enters :
    Bool
    → List ℕ
    → Bool
    → ℕ
    → ℕ
    → Unicode
    → CatalogRecord
    → Catalog
    → List ℕ
    → NamedCatalogKey
    → Type 0
Enters signed label is_dir parent_id node_id decoded rec catalog name other =
    (catalog' : Catalog) × (on_entry signed label is_dir parent_id node_id decoded rec catalog
      ≡ some catalog')
    × (find_record (new_key node_id []) catalog' ≡ some (thread_of is_dir parent_id name))
    × (find_record (new_key parent_id name) catalog' ≡ some rec)
    × (find_record other catalog' ≡ find_record other catalog)

-- An entry whose name decomposes to `name`, and whose key and whose thread's key are not in the catalog
-- yet and are not the same, is entered. Its thread is found then by the number of the node and an
-- empty name, and gives the number of the parent and the name; by these two the record of the entry
-- is found; and what was in the catalog under another key is still there.
pub on_entry_lem :
    (signed : Bool) (label : List ℕ) (is_dir : Bool) (parent_id node_id : ℕ) (decoded : Unicode)
    (rec : CatalogRecord) (catalog : Catalog) (name : Unicode) (other : NamedCatalogKey)
    → decompo signed label decoded ≡ some name
    → find_record (new_key parent_id (mac_string name)) catalog ≡ none
    → find_record (new_key node_id []) catalog ≡ none
    → same_named (new_key node_id []) (new_key parent_id (mac_string name)) ≡ false
    → same_named other (new_key parent_id (mac_string name)) ≡ false
    → same_named other (new_key node_id []) ≡ false
    → Enters signed label is_dir parent_id node_id decoded rec catalog (mac_string name) other
unfolding on_entry Enters
on_entry_lem signed label is_dir parent_id node_id decoded rec catalog name other hn he ht apart oe
      ot =
    let entry = new_key parent_id (mac_string name) in
    let thread = new_key node_id [] in
    let rec' = thread_of is_dir parent_id (mac_string name) in
    let with_entry = insert_record entry rec catalog in
    let absent : find_record thread with_entry ≡ none =
      rw (find_record-insert_record thread entry rec catalog he, apart) ht in
    let apart' : same_named entry thread ≡ false = apart_sym thread entry apart in
    (
      insert_record thread rec' with_entry,
      rw hn refl,
      rw (find_record-insert_record thread thread rec' with_entry absent, same_named_refl thread)
          refl,
      rw
          (
            find_record-insert_record entry thread rec' with_entry absent,
            apart',
            find_record-insert_record entry entry rec catalog he,
            same_named_refl entry,
          )
          refl,
      rw
          (
            find_record-insert_record other thread rec' with_entry absent,
            ot,
            find_record-insert_record other entry rec catalog he,
            oe,
          )
          refl,
    )
