-- ===== src/Cd/PathTable/Children.antt =====
-- The sub-folders of a folder in the path table: in order, behind all others, and each of them.
use mathlib.Core.Path.{subst}
use fsview.Base.{
  ℕ, ◌+◌, ◌≤◌, ◌<◌, ◌≡◌, refl, ap, ◌∙◌, ◌⊎◌, inl, inr, arith, true, false, List, [], ◌∷◌, ◌++◌, All,
  Bool-cases,
}
use fsview.Cd.PathTable.{
  PathEntry, EntryList, path_entry, no_entries, file_child, path_child, pointer, FolDef, Order, key,
  key_below, same_key, PathTab, table_insert, add_children,
}
use fsview.Cd.PathTable.Keys.{
  Above, Ascending, All-insert, same_key-eq, insert-Ascending, insert_behind,
}

-- A number for each folder of a tree, added up.
abbrev mutual
  pub weight : (ℕ → ℕ) → PathEntry → ℕ
  weight f (path_entry ptr es) = f ptr + weight_in f es

  pub weight_in : (ℕ → ℕ) → EntryList → ℕ
  weight_in f no_entries = 0
  weight_in f (file_child ptr es) = weight_in f es
  weight_in f (path_child e es) = weight f e + weight_in f es

abbrev pub total : (ℕ → ℕ) → PathTab → ℕ
total f [] = 0
total f ((o, e) ∷ tab) = weight f e + total f tab

abbrev pub row_total : (ℕ → ℕ) → List (ℕ × ℕ) → ℕ
row_total f [] = 0
row_total f ((ptr, parent) ∷ rows) = f ptr + row_total f rows

abbrev pub one : ℕ → ℕ
one ptr = 1

-- No two sub-folders of one folder have the same name.
abbrev pub NoneNamed : (ℕ → FolDef) → List ℕ → EntryList → Type 0
NoneNamed folders name no_entries = Unit
NoneNamed folders name (file_child ptr es) = NoneNamed folders name es
NoneNamed folders name (path_child e es) =
    (same_key (folders (pointer e)).conv name ≡ false) × NoneNamed folders name es

abbrev mutual
  pub Distinct : (ℕ → FolDef) → PathEntry → Type 0
  Distinct folders (path_entry ptr es) = DistinctIn folders es

  pub DistinctIn : (ℕ → FolDef) → EntryList → Type 0
  DistinctIn folders no_entries = Unit
  DistinctIn folders (file_child ptr es) = DistinctIn folders es
  DistinctIn folders (path_child e es) =
      NoneNamed folders (folders (pointer e)).conv es × Distinct folders e × DistinctIn folders es

-- An element that is no deeper than the level, or is one deeper and below a folder numbered before.
abbrev pub Near : ℕ → ℕ → Order × PathEntry → Type 0
Near level n (j, f) = (j.level ≤ level) ⊎ ((j.level ≡ level + 1) × (j.daddy < n))

abbrev pub Kid : ℕ → ℕ → Order × PathEntry → Type 0
Kid level n (j, f) = (j.level ≡ level) × (j.daddy ≡ n)

abbrev pub Absent : Order → Order × PathEntry → Type 0
Absent o (j, f) = same_key (key o) (key j) ≡ false

abbrev pub IsDistinct : (ℕ → FolDef) → Order × PathEntry → Type 0
IsDistinct folders (j, f) = Distinct folders f

pub All-map {κ μ} :
    (P : Order × PathEntry → Type κ) (Q : Order × PathEntry → Type μ)
    → ((j : Order) (f : PathEntry) → P (j, f) → Q (j, f))
    → (tab : PathTab) → All P tab
    → All Q tab
All-map P Q g [] h = tt
All-map P Q g ((j, f) ∷ tab) (k, h) = (g j f k, All-map P Q g tab h)

pub total-append : (f : ℕ → ℕ) (xs ys : PathTab) → total f (xs ++ ys) ≡ total f xs + total f ys
total-append f [] ys = omega arith
total-append f ((o, e) ∷ xs) ys = omega (arith, total-append f xs ys)

total-insert :
    (f : ℕ → ℕ) (o : Order) (e : PathEntry) (tab : PathTab)
    → All (Absent o) tab
    → total f (table_insert o e tab) ≡ weight f e + total f tab
unfolding table_insert
total-insert f o e [] h = refl
total-insert f o e ((j, g) ∷ tab) (new, h) = elim (Bool-cases (key_below (key o) (key j))) [
  | inl lower ↦ rw (new, lower) refl
  | inr upper ↦ rw (new, upper) (omega (arith, total-insert f o e tab h))
]

same_key-kid :
    (level n : ℕ) (name : List ℕ) (j : Order)
    → same_key (level ∷ n ∷ name) (key j) ≡ true
    → (j.level ≡ level) × (j.daddy ≡ n)
same_key-kid level n name j h = ground arith

other_key :
    (level n : ℕ) (a b : List ℕ)
    → same_key a b ≡ false
    → same_key (level ∷ n ∷ a) (level ∷ n ∷ b) ≡ false
other_key level n a b h = ground arith

-- The children of one folder, from those of them that are in the table already.
module _ (folders : ℕ → FolDef) (level n : ℕ) where
  abbrev pub child_order : PathEntry → Order
  child_order e = record { level = level; daddy = n; name = (folders (pointer e)).conv }

  abbrev pub Apart : EntryList → PathTab → Type 0
  Apart no_entries tab = Unit
  Apart (file_child ptr es) tab = Apart es tab
  Apart (path_child e es) tab = All (Absent (child_order e)) tab × Apart es tab

  pub record Kids (f : ℕ → ℕ) (es : EntryList) (before after : PathTab) : Type 0 where
    pub ascending : Ascending after
    pub kids : All (Kid level n) after
    pub distinct : All (IsDistinct folders) after
    pub added : total f after ≡ weight_in f es + total f before

  Apart-insert :
      (es : EntryList) (e : PathEntry) (tab : PathTab)
      → NoneNamed folders (folders (pointer e)).conv es
      → Apart es tab
      → Apart es (table_insert (child_order e) e tab)
  Apart-insert no_entries e tab named h = tt
  Apart-insert (file_child ptr es) e tab named h = Apart-insert es e tab named h
  Apart-insert (path_child c es) e tab (other, named) (absent, h) = (
    All-insert (Absent (child_order c)) (child_order e) e tab
        (λ j same.
          subst (λ t. same_key (key (child_order c)) t ≡ false)
            (same_key-eq (key (child_order e)) (key j) same)
            (other_key level n (folders (pointer c)).conv (folders (pointer e)).conv other))
        (other_key level n (folders (pointer c)).conv (folders (pointer e)).conv other) absent,
    Apart-insert es e tab named h,
  )

  pub add_children-Kids :
      (f : ℕ → ℕ) (es : EntryList) (tab : PathTab)
      → Ascending tab
      → All (Kid level n) tab
      → All (IsDistinct folders) tab
      → DistinctIn folders es
      → Apart es tab
      → Kids f es tab (add_children folders level n es tab)
  unfolding add_children
  add_children-Kids f no_entries tab asc kids distinct d apart = record {
    ascending = asc;
    kids = kids;
    distinct = distinct;
    added = omega arith;
  }
  add_children-Kids f (file_child ptr es) tab asc kids distinct d apart =
      let later = add_children-Kids f es tab asc kids distinct d apart in
      record {
        ascending = later.ascending;
        kids = later.kids;
        distinct = later.distinct;
        added = later.added;
      }
  add_children-Kids f (path_child e es) tab asc kids distinct (named, de, d) (absent, apart) =
      let o = child_order e in
      let later =
        add_children-Kids f es (table_insert o e tab) (insert-Ascending o e tab asc)
          (All-insert (Kid level n) o e tab
            (λ j same. same_key-kid level n (folders (pointer e)).conv j same) (refl, refl) kids)
          (All-insert (IsDistinct folders) o e tab (λ j same. de) de distinct) d
          (Apart-insert es e tab named apart) in
      record {
        ascending = later.ascending;
        kids = later.kids;
        distinct = later.distinct;
        added = omega (arith, later.added, total-insert f o e tab absent);
      }

  pub Apart-empty : (es : EntryList) → Apart es []
  Apart-empty no_entries = tt
  Apart-empty (file_child ptr es) = Apart-empty es
  Apart-empty (path_child e es) = (tt, Apart-empty es)

  -- Children go behind elements that are all below them.
  pub add_children_behind :
      (es : EntryList) (front tab : PathTab)
      → All
          (λ (item : Order × PathEntry).
            (name : List ℕ) → key_below (key item.0) (level ∷ n ∷ name) ≡ true)
          front
      → add_children folders level n es (front ++ tab)
        ≡ front ++ add_children folders level n es tab
  unfolding add_children
  add_children_behind no_entries front tab h = refl
  add_children_behind (file_child ptr es) front tab h = add_children_behind es front tab h
  add_children_behind (path_child e es) front tab h =
      ap (add_children folders level n es) (
        insert_behind (child_order e) e front tab (
          All-map
            (λ (item : Order × PathEntry).
              (name : List ℕ) → key_below (key item.0) (level ∷ n ∷ name) ≡ true)
            (λ (item : Order × PathEntry). Above item.0 (child_order e, e))
            (λ j g k. k (folders (pointer e)).conv) front h))
      ∙ add_children_behind es front (table_insert (child_order e) e tab) h
