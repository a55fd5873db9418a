-- ===== src/Cd/PathTable/Complete.antt =====
-- The path table is finished and has a row for each folder of the tree.
use mathlib.Core.Path.{subst}
use mathlib.Core.List.{append-nil, append_assoc}
use fsview.Base.{
  ℕ, zero, suc, ◌+◌, ◌≤◌, ◌<◌, ◌≡◌, refl, sym, ap, ◌∙◌, ◌⊎◌, inl, inr, arith, true, some, List, [],
  ◌∷◌, ◌++◌, ltb, All, All-append, Bool-cases, le_or_lt,
}
use fsview.Cd.PathTable.{
  PathEntry, EntryList, path_entry, FolDef, Order, key, key_below, PathTab, next_after,
  add_children, path_tb_cap, walk, walk_from, root_order,
}
use fsview.Cd.PathTable.Keys.{
  Above, NotAbove, Ascending, key_below_trans, key_below_asym, next_after_lem, Ascending-append,
}
use fsview.Cd.PathTable.Children.{
  weight, total, row_total, one, Distinct, Near, Kid, IsDistinct, All-map, total-append,
  add_children-Kids, Apart-empty, add_children_behind,
}

near-kid :
    (level n : ℕ) (j : Order) (name : List ℕ)
    → (j.level ≤ level) ⊎ ((j.level ≡ level + 1) × (j.daddy < n))
    → key_below (key j) ((level + 1) ∷ n ∷ name) ≡ true
near-kid level n j name (inl h) = ground arith
near-kid level n j name (inr h) = ground arith

near-below :
    (level n : ℕ) (j i : Order)
    → (j.level ≤ level) ⊎ ((j.level ≡ level + 1) × (j.daddy < n))
    → (i.level ≡ level + 1) × (i.daddy ≡ n)
    → key_below (key j) (key i) ≡ true
near-below level n j i (inl h) k = ground arith
near-below level n j i (inr h) k = ground arith

level_le : (o j : Order) → key_below (key o) (key j) ≡ true → o.level ≤ j.level
level_le o j h = ground arith

near_deeper :
    (level level' n : ℕ) (j : Order)
    → level ≤ level'
    → (j.level ≤ level) ⊎ ((j.level ≡ level + 1) × (j.daddy < n))
    → (j.level ≤ level') ⊎ ((j.level ≡ level' + 1) × (j.daddy < n))
near_deeper level level' n j h (inl k) = inl (omega arith)
near_deeper level level' n j h (inr (at, below)) = elim (le_or_lt (level + 1) level') [
  | inl over ↦ inl (omega arith)
  | inr same ↦ inr (omega arith, below)
]

All-right {κ} : (P : Order × PathEntry → Type κ) (xs ys : PathTab) → All P (xs ++ ys) → All P ys
All-right P [] ys h = h
All-right P (x ∷ xs) ys (k, h) = All-right P xs ys h

regroup :
    (xs ys zs : PathTab) (x : Order × PathEntry)
    → (xs ++ (x ∷ ys)) ++ zs ≡ (xs ++ (x ∷ [])) ++ (ys ++ zs)
regroup xs ys zs x = simp append_assoc

-- The elements that the iterator has passed, and those in front of it.
abbrev Inv : PathTab → PathTab → ℕ → Type 0
Inv front [] n = Unit
Inv front ((o, e) ∷ q) n =
    All (NotAbove o) front
    × All (Above o) q
    × Ascending q
    × All (Near o.level n) (front ++ ((o, e) ∷ q))

Inv-from :
    (front next : PathTab) (o : Order) (e : PathEntry) (n : ℕ)
    → All (NotAbove o) front
    → All (Above o) next
    → Ascending next
    → All (Near o.level (n + 1)) ((front ++ ((o, e) ∷ [])) ++ next)
    → Inv (front ++ ((o, e) ∷ [])) next (n + 1)
Inv-from front [] o e n behind above asc near = tt
Inv-from front ((o', e') ∷ next) o e n behind (over, above) (first, asc) near =
    let deeper = level_le o o' over in
    (
      All-append (NotAbove o') front ((o, e) ∷ [])
          (All-map (NotAbove o) (NotAbove o')
            (λ j f h. elim (Bool-cases (key_below (key o') (key j))) [
              | inl k ↦ let bad = key_below_trans (key o) (key o') (key j) over k in cc
              | inr k ↦ k
            ])
            front behind)
          ((key_below_asym (key o) (key o') over).1, tt),
      first,
      asc,
      All-map (Near o.level (n + 1)) (Near o'.level (n + 1))
          (λ j f h. near_deeper o.level o'.level (n + 1) j deeper h)
          ((front ++ ((o, e) ∷ [])) ++ ((o', e') ∷ next)) near,
    )

walk_step :
    (folders : ℕ → FolDef) (fuel : ℕ) (tab later tab' next : PathTab) (daddy ptr : ℕ) (o : Order)
    (es : EntryList) (rows : List (ℕ × ℕ))
    → daddy < path_tb_cap
    → add_children folders (o.level + 1) daddy es tab ≡ tab'
    → next_after o tab' ≡ next
    → walk folders fuel tab' next (daddy + 1) ≡ some rows
    → walk folders (suc fuel) tab ((o, path_entry ptr es) ∷ later) daddy
      ≡ some ((ptr, o.daddy) ∷ rows)
unfolding walk
walk_step folders fuel tab later tab' next daddy ptr o es rows h e e' ih =
    let inside : ltb daddy path_tb_cap ≡ true = ground arith in rw (inside, e, e', ih) refl

-- One round: a folder is left behind, and its sub-folders are queued behind all others.
module _ (folders : ℕ → FolDef) (front q ks : PathTab) (o : Order) (ptr n : ℕ) (es : EntryList)
    (inv : Inv front ((o, path_entry ptr es) ∷ q) n) (kids : All (Kid (o.level + 1) n) ks) where
  abbrev left : PathTab
  left = front ++ ((o, path_entry ptr es) ∷ [])

  queued :
      add_children folders (o.level + 1) n es [] ≡ ks
      → add_children folders (o.level + 1) n es (front ++ ((o, path_entry ptr es) ∷ q))
        ≡ left ++ (q ++ ks)
  queued e =
      let tab = front ++ ((o, path_entry ptr es) ∷ q) in
      ap (add_children folders (o.level + 1) n es) (sym (append-nil tab))
      ∙ add_children_behind folders (o.level + 1) n es tab [] (
          All-map (Near o.level n)
            (λ (item : Order × PathEntry).
              (name : List ℕ) → key_below (key item.0) ((o.level + 1) ∷ n ∷ name) ≡ true)
            (λ j f h name. near-kid o.level n j name h) tab inv.3)
      ∙ ap (λ t. tab ++ t) e
      ∙ regroup front q ks (o, path_entry ptr es)

  Above-All : All (Above o) (q ++ ks)
  Above-All = All-append (Above o) q ks inv.1 (
      All-map (Kid (o.level + 1) n) (Above o)
        (λ i f k. near-below o.level n o i (inl (omega arith)) k) ks kids)

  next_lem : next_after o (left ++ (q ++ ks)) ≡ q ++ ks
  next_lem =
      ap (next_after o) (append_assoc front ((o, path_entry ptr es) ∷ []) (q ++ ks))
      ∙ next_after_lem o (path_entry ptr es) front (q ++ ks) inv.0 Above-All

  Inv-next : Ascending ks → Inv left (q ++ ks) (n + 1)
  Inv-next asc =
      let tab = front ++ ((o, path_entry ptr es) ∷ q) in
      let cross =
        All-map (Near o.level n) (λ (item : Order × PathEntry). All (Above item.0) ks)
          (λ j f h.
            All-map (Kid (o.level + 1) n) (Above j) (λ i g k. near-below o.level n j i h k) ks kids)
          q ((All-right (Near o.level n) front ((o, path_entry ptr es) ∷ q) inv.3).1) in
      let near : All (Near o.level (n + 1)) (tab ++ ks) =
        All-append (Near o.level (n + 1)) tab ks
          (All-map (Near o.level n) (Near o.level (n + 1)) (λ j f h. later j h) tab inv.3)
          (All-map (Kid (o.level + 1) n) (Near o.level (n + 1))
            (λ j f (at, above). inr (at, omega arith)) ks kids) in
      Inv-from front (q ++ ks) o (path_entry ptr es) n inv.0 Above-All
        (Ascending-append q ks inv.2 asc cross)
        (subst (All (Near o.level (n + 1))) (regroup front q ks (o, path_entry ptr es)) near)
    where
      later :
          (j : Order)
          → (j.level ≤ o.level) ⊎ ((j.level ≡ o.level + 1) × (j.daddy < n))
          → (j.level ≤ o.level) ⊎ ((j.level ≡ o.level + 1) × (j.daddy < n + 1))
      later j (inl h) = inl h
      later j (inr (at, below)) = inr (at, omega arith)

walk-total :
    (folders : ℕ → FolDef) (fuel : ℕ) (front current : PathTab) (n : ℕ)
    → Inv front current n
    → All (IsDistinct folders) current
    → total one current ≤ fuel
    → n + total one current ≤ path_tb_cap
    → (rows : List (ℕ × ℕ)) × (walk folders fuel (front ++ current) current n ≡ some rows)
      × ((f : ℕ → ℕ) → row_total f rows ≡ total f current)
walk-total folders fuel front [] n inv distinct enough room = ([], unfold walk in refl, λ f. refl)
walk-total folders zero front ((o, path_entry ptr es) ∷ q) n inv distinct enough room =
    absurd (omega arith)
walk-total folders (suc fuel) front ((o, path_entry ptr es) ∷ q) n inv (de, dq) enough room =
    let ks = add_children folders (o.level + 1) n es [] in
    let kids = λ (f : ℕ → ℕ).
      add_children-Kids folders (o.level + 1) n f es [] tt tt tt de
        (Apart-empty folders (o.level + 1) n es) in
    let all_kids = (kids one).kids in
    let (rows, ran, counted) =
      walk-total folders fuel (front ++ ((o, path_entry ptr es) ∷ [])) (q ++ ks) (n + 1)
        (Inv-next folders front q ks o ptr n es inv all_kids (kids one).ascending)
        (All-append (IsDistinct folders) q ks dq (kids one).distinct)
        (omega (arith, total-append one q ks, (kids one).added))
        (omega (arith, total-append one q ks, (kids one).added)) in
    (
      (ptr, o.daddy) ∷ rows,
      walk_step folders fuel (front ++ ((o, path_entry ptr es) ∷ q)) q
          ((front ++ ((o, path_entry ptr es) ∷ [])) ++ (q ++ ks)) (q ++ ks) n ptr o es rows
          (omega arith) (queued folders front q ks o ptr n es inv all_kids refl)
          (next_lem folders front q ks o ptr n es inv all_kids) ran,
      λ f. omega (arith, counted f, total-append f q ks, (kids f).added),
    )

-- Where the sub-folders of each folder have different names and the tree has fewer than 65536 folders,
-- the walk ends after as many rounds as there are folders. Each folder has as many rows then as it
-- has places in the tree: whatever numbers folders are given, those of the rows add up as those of
-- the tree do.
pub walk_from_total :
    (folders : ℕ → FolDef) (root : PathEntry)
    → Distinct folders root
    → weight one root < path_tb_cap
    → (rows : List (ℕ × ℕ)) × (walk_from folders (weight one root) root ≡ some rows)
      × ((f : ℕ → ℕ) → row_total f rows ≡ weight f root)
walk_from_total folders root d room =
    let (rows, ran, counted) =
      walk-total folders (weight one root) [] ((root_order, root) ∷ []) 1
        (tt, tt, tt, (inl (omega arith), tt)) (d, tt) (omega arith) (omega arith) in
    (rows, ran, λ f. omega (arith, counted f))
