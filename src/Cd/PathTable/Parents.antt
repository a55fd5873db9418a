-- ===== src/Cd/PathTable/Parents.antt =====
-- Each row of the path table has the number of a row before it, which is its parent's.
use mathlib.Core.Path.{subst}
use fsview.Base.{
  ℕ, zero, suc, ◌+◌, ◌-◌, ◌≤◌, ◌≡◌, refl, sym, ap, ◌∙◌, ◌⊎◌, inl, inr, arith, true, some, List, [],
  ◌∷◌, ◌++◌, ltb, length, length-append, get_elem?, All, Bool-cases, >>=-eq-some,
}
use fsview.Cd.PathTable.{
  PathEntry, EntryList, path_entry, no_entries, file_child, path_child, pointer, FolDef, Order, key,
  key_below, same_key, PathTab, table_insert, next_after, add_children, path_tb_cap, walk,
  walk_from, root_order,
}

abbrev pub IsChild : ℕ → EntryList → Type 0
IsChild c no_entries = ⊥
IsChild c (file_child ptr es) = IsChild c es
IsChild c (path_child e es) = (c ≡ pointer e) ⊎ IsChild c es

-- A folder p of the tree has a sub-folder c.
abbrev mutual
  pub Edge : ℕ → ℕ → PathEntry → Type 0
  Edge p c (path_entry ptr es) = ((p ≡ ptr) × IsChild c es) ⊎ EdgeIn p c es

  pub EdgeIn : ℕ → ℕ → EntryList → Type 0
  EdgeIn p c no_entries = ⊥
  EdgeIn p c (file_child ptr es) = EdgeIn p c es
  EdgeIn p c (path_child e es) = Edge p c e ⊎ EdgeIn p c es

-- The row `parent`, counted from 1, is one of a folder with the sub-folder `ptr`.
pub record Parented (root : PathEntry) (before : List (ℕ × ℕ)) (parent ptr : ℕ) : Type 0 where
  pub row : ℕ × ℕ
  pub counted : 1 ≤ parent
  pub there : get_elem? before (parent - 1) ≡ some row
  pub edge : Edge row.0 ptr root

-- The root is its own parent.
abbrev pub Placed : PathEntry → List (ℕ × ℕ) → ℕ → ℕ → Type 0
Placed root before parent ptr =
    Parented root before parent ptr ⊎ ((parent ≡ 1) × (ptr ≡ pointer root))

-- Rows behind those that are there already, each with its parent in front of it.
abbrev pub ParentsFirst : PathEntry → List (ℕ × ℕ) → List (ℕ × ℕ) → Type 0
ParentsFirst root before [] = Unit
ParentsFirst root before ((ptr, parent) ∷ rows) =
    Placed root before parent ptr × ParentsFirst root (before ++ ((ptr, parent) ∷ [])) rows

-- What holds of each element of the table.
record Known (root : PathEntry) (before : List (ℕ × ℕ)) (item : Order × PathEntry) : Type 0 where
  placed : Placed root before item.0.daddy (pointer item.1)
  inside : (p c : ℕ) → Edge p c item.1 → Edge p c root

still_there :
    (xs ys : List (ℕ × ℕ)) (i : ℕ) (row : ℕ × ℕ)
    → get_elem? xs i ≡ some row
    → get_elem? (xs ++ ys) i ≡ some row
still_there [] ys i row h = cc
still_there (x ∷ xs) ys zero row h = h
still_there (x ∷ xs) ys (suc i) row h = still_there xs ys i row h

get_last : (xs : List (ℕ × ℕ)) (row : ℕ × ℕ) → get_elem? (xs ++ (row ∷ [])) (length xs) ≡ some row
get_last [] row = refl
get_last (x ∷ xs) row = get_last xs row

Placed-append :
    (root : PathEntry) (before : List (ℕ × ℕ)) (row : ℕ × ℕ) (parent ptr : ℕ)
    → Placed root before parent ptr
    → Placed root (before ++ (row ∷ [])) parent ptr
Placed-append root before row parent ptr (inl h) = inl (record {
  row = h.row;
  counted = h.counted;
  there = still_there before (row ∷ []) (parent - 1) h.row h.there;
  edge = h.edge;
})
Placed-append root before row parent ptr (inr h) = inr h

Known-append :
    (root : PathEntry) (before : List (ℕ × ℕ)) (row : ℕ × ℕ) (item : Order × PathEntry)
    → Known root before item
    → Known root (before ++ (row ∷ [])) item
Known-append root before row item h = record {
  placed = Placed-append root before row item.0.daddy (pointer item.1) h.placed;
  inside = h.inside;
}

AllKnown-append :
    (root : PathEntry) (before : List (ℕ × ℕ)) (row : ℕ × ℕ) (tab : PathTab)
    → All (Known root before) tab
    → All (Known root (before ++ (row ∷ []))) tab
AllKnown-append root before row [] h = tt
AllKnown-append root before row (item ∷ tab) (k, h) =
    (Known-append root before row item k, AllKnown-append root before row tab h)

same_key-daddy : (o j : Order) → same_key (key o) (key j) ≡ true → o.daddy ≡ j.daddy
same_key-daddy o j h = ground arith

All-next_after {κ} :
    (P : Order × PathEntry → Type κ) (o : Order) (tab : PathTab)
    → All P tab
    → All P (next_after o tab)
unfolding next_after
All-next_after P o [] h = tt
All-next_after P o ((j, f) ∷ tab) (k, h) = elim (Bool-cases (key_below (key o) (key j))) [
  | inl e ↦ rw e (k, h)
  | inr e ↦ rw e (All-next_after P o tab h)
]

All-table_insert :
    (root : PathEntry) (before : List (ℕ × ℕ)) (o : Order) (e : PathEntry) (tab : PathTab)
    → Known root before (o, e)
    → All (Known root before) tab
    → All (Known root before) (table_insert o e tab)
unfolding table_insert
All-table_insert root before o e [] k h = (k, tt)
All-table_insert root before o e ((j, f) ∷ tab) k (kj, h) =
    elim (Bool-cases (same_key (key o) (key j))) [
      | inl same ↦ rw same (
        (record {
          placed = subst (λ d. Placed root before d (pointer e)) (same_key-daddy o j same) k.placed;
          inside = k.inside;
        }),
        h,
      )
      | inr new ↦ elim (Bool-cases (key_below (key o) (key j))) [
        | inl lower ↦ rw (new, lower) (k, (kj, h))
        | inr upper ↦ rw (new, upper) (kj, All-table_insert root before o e tab k h)
      ]
    ]

module _ (root : PathEntry) (before : List (ℕ × ℕ)) (folders : ℕ → FolDef)
    (level daddy ptr grand : ℕ) (counted : 1 ≤ daddy)
    (there : get_elem? before (daddy - 1) ≡ some (ptr, grand)) where
  All-add_children :
      (es : EntryList) (tab : PathTab)
      → ((c : ℕ) → IsChild c es → Edge ptr c root)
      → ((p c : ℕ) → EdgeIn p c es → Edge p c root)
      → All (Known root before) tab
      → All (Known root before) (add_children folders level daddy es tab)
  unfolding add_children
  All-add_children no_entries tab children inside h = h
  All-add_children (file_child p es) tab children inside h =
      All-add_children es tab children inside h
  All-add_children (path_child e es) tab children inside h =
      let o : Order = record { level = level; daddy = daddy; name = (folders (pointer e)).conv } in
      let known : Known root before (o, e) = record {
        placed = inl (record {
          row = (ptr, grand);
          counted = counted;
          there = there;
          edge = children (pointer e) (inl refl);
        });
        inside = λ p c edge. inside p c (inl edge);
      } in
      All-add_children es (table_insert o e tab) (λ c m. children c (inr m))
        (λ p c m. inside p c (inr m)) (All-table_insert root before o e tab known h)

walk_open :
    (folders : ℕ → FolDef) (fuel : ℕ) (tab later : PathTab) (daddy ptr : ℕ) (o : Order)
    (es : EntryList) (rows : List (ℕ × ℕ))
    → walk folders (suc fuel) tab ((o, path_entry ptr es) ∷ later) daddy ≡ some rows
    → (rows ≡ [])
      ⊎ ((rest : List (ℕ × ℕ)) × (rows ≡ (ptr, o.daddy) ∷ rest)
          × (walk folders fuel
                (add_children folders (o.level + 1) daddy es tab)
                (next_after o (add_children folders (o.level + 1) daddy es tab))
                (daddy + 1)
              ≡ some rest))
unfolding walk
walk_open folders fuel tab later daddy ptr o es rows h = elim (Bool-cases (ltb daddy path_tb_cap)) [
  | inl inside ↦
      let h' = rw inside at h in let (rest, e, last) = >>=-eq-some _ _ h' in inr (rest, cc, e)
  | inr beyond ↦ let h' = rw beyond at h in inl (cc)
]

walk-ParentsFirst :
    (root : PathEntry) (folders : ℕ → FolDef) (fuel : ℕ) (tab current : PathTab) (daddy : ℕ)
    (before rows : List (ℕ × ℕ))
    → daddy ≡ length before + 1
    → All (Known root before) tab
    → All (Known root before) current
    → walk folders fuel tab current daddy ≡ some rows
    → ParentsFirst root before rows
walk-ParentsFirst root folders fuel tab [] daddy before rows count known at e =
    let none_left : [] ≡ rows = unfold walk in cc in subst (ParentsFirst root before) none_left tt
walk-ParentsFirst root folders zero tab (cur ∷ later) daddy before rows count known at e =
    absurd (unfold walk in cc)
walk-ParentsFirst root folders (suc fuel) tab ((o, path_entry ptr es) ∷ later) daddy before rows
      count known (k, at) e =
    elim (walk_open folders fuel tab later daddy ptr o es rows e) [
      | inl stopped ↦ subst (ParentsFirst root before) (sym stopped) tt
      | inr (rest, first, e') ↦
          let row : ℕ × ℕ = (ptr, o.daddy) in
          let before' = before ++ (row ∷ []) in
          let tab' = add_children folders (o.level + 1) daddy es tab in
          let there : get_elem? before' (daddy - 1) ≡ some row =
            ap (get_elem? before') (omega arith) ∙ get_last before row in
          let known' =
            All-add_children root before' folders (o.level + 1) daddy ptr o.daddy (omega arith)
              there es tab (λ c m. k.inside ptr c (inl (refl, m))) (λ p c m. k.inside p c (inr m))
              (AllKnown-append root before row tab known) in
          let rest_first =
            walk-ParentsFirst root folders fuel tab' (next_after o tab') (daddy + 1) before' rest
              (omega (arith, length-append before (row ∷ []))) known'
              (All-next_after (Known root before') o tab' known') e' in
          subst (ParentsFirst root before) (sym first) (k.placed, rest_first)
    ]

-- Once the walk from a root is done, each row has the number of a row in front of it, which is one of a
-- folder with this row's folder as a sub-folder; or it is one of the root, and has the number 1.
pub walk_from-ParentsFirst :
    (folders : ℕ → FolDef) (fuel : ℕ) (root : PathEntry) (rows : List (ℕ × ℕ))
    → walk_from folders fuel root ≡ some rows
    → ParentsFirst root [] rows
walk_from-ParentsFirst folders fuel root rows h =
    let known : Known root [] (root_order, root) = record {
      placed = inr (refl, refl);
      inside = λ p c edge. edge;
    } in
    let tab : PathTab = (root_order, root) ∷ [] in
    walk-ParentsFirst root folders fuel tab tab 1 [] rows (omega arith) (known, tt) (known, tt) h
