-- ===== src/Cd/Folders/Parents.antt =====
-- After the loop over the folders, the second record of each names its parent.
use mathlib.Core.Path.{subst}
use fsview.Base.{
  ℕ, ◌/◌, ◌%◌, ◌^◌, ◌≡◌, ◌≢◌, sym, ap, ◌∙◌, ◌⊎◌, inl, inr, Option, none, some, List, [], ◌∷◌, All,
  ◌>>=◌, >>=-eq-some,
}
use fsview.Base.SortedMap.{insert, lookup_or}
use fsview.Base.Words.{add64}
use fsview.Extent.{Media}
use fsview.Device.{Colonies}
use fsview.Cd.Folders.{Folder, VolumePlan, plan_folder, plan_folders}
use fsview.Cd.Folders.Links.{Fronted, HasUse, lookup_same, lookup_other}
use fsview.Cd.Folders.Rounds.{Round, round}
use fsview.Cd.Folders.Waiting.{OnlyIn}
use fsview.Cd.Folders.Steps.{
  IsLinked, round-OnlyIn, round-Fronted, round-own, round-IsLinked, round-keeps, round-waits,
  round-notes,
}

-- Folders that are neither p nor q.
abbrev pub Apart : ℕ → ℕ → List Folder → Type 0
Apart p q dirs = All (λ (dir : Folder). (dir.ptr ≢ p) × (dir.ptr ≢ q)) dirs

-- The parent q comes once, and p does not.
abbrev pub ParentIn : ℕ → ℕ → List Folder → Type 0
ParentIn p q [] = ⊥
ParentIn p q (dir ∷ dirs) =
    (dir.ptr ≢ p) × (((dir.ptr ≡ q) × Apart p q dirs) ⊎ ((dir.ptr ≢ q) × ParentIn p q dirs))

-- The folder p comes once, with q as its parent, which comes later, or is p itself.
abbrev pub ChildFirst : ℕ → ℕ → List Folder → Type 0
ChildFirst p q [] = ⊥
ChildFirst p q (dir ∷ dirs) =
    ((dir.ptr ≡ p)
      × (dir.parent_ptr ≡ q)
      × (((p ≡ q) × Apart p q dirs) ⊎ ((p ≢ q) × ParentIn p q dirs)))
    ⊎ ((dir.ptr ≢ p) × ChildFirst p q dirs)

plan_or : VolumePlan → Option VolumePlan → VolumePlan
plan_or d none = d
plan_or d (some vol) = vol

module _ (blk_sz : ℕ) (media : Media) (c : Colonies) (tmp_to_out p q : ℕ) where
  one_round :
      (dir : Folder) (dirs : List Folder) (vol vol' : VolumePlan)
      → plan_folders blk_sz media c tmp_to_out (dir ∷ dirs) vol ≡ some vol'
      → (next : VolumePlan) × Round blk_sz media c tmp_to_out dir vol next
        × (plan_folders blk_sz media c tmp_to_out dirs next ≡ some vol')
  one_round dir dirs vol vol' h =
      let m = plan_folder blk_sz media c tmp_to_out dir vol in
      let f = λ (v : VolumePlan). plan_folders blk_sz media c tmp_to_out dirs v in
      let opened : (m >>= f) ≡ some vol' = unfold plan_folders in h in
      let (next, e, last) = >>=-eq-some m f {b = vol'} opened in
      (next, round blk_sz media c tmp_to_out dir vol next e, last)

  after :
      (dirs : List Folder) (vol vol' : VolumePlan)
      → Apart p q dirs
      → OnlyIn p q vol.parents
      → IsLinked p q vol
      → plan_folders blk_sz media c tmp_to_out dirs vol ≡ some vol'
      → IsLinked p q vol'
  unfolding plan_or
  after [] vol vol' apart only l h =
      let same : some vol ≡ some vol' = unfold plan_folders in h in
      subst (IsLinked p q) (ap (plan_or vol) same) l
  after (dir ∷ dirs) vol vol' ((not_p, not_q), apart) only l h =
      let (next, r, last) = one_round dir dirs vol vol' h in
      let only' = round-OnlyIn r (inl not_p) only in
      after dirs next vol' apart only' (round-keeps r not_p not_q only' l) last

  between :
      (dirs : List Folder) (vol vol' : VolumePlan) (lba len : ℕ)
      → ParentIn p q dirs
      → OnlyIn p q vol.parents
      → HasUse p (lookup_or q [] vol.parents)
      → Fronted lba len (lookup_or p [] vol.burners)
      → plan_folders blk_sz media c tmp_to_out dirs vol ≡ some vol'
      → IsLinked p q vol'
  between [] vol vol' lba len there only waits f h = absurd there
  between (dir ∷ dirs) vol vol' lba len (not_p, inl (is_q, apart)) only waits f h =
      let (next, r, last) = one_round dir dirs vol vol' h in
      let f' =
        subst (Fronted lba len)
          (sym (lookup_other dir.ptr p r.sized vol.burners (λ e. not_p (sym e)))) f in
      after dirs next vol' apart (round-OnlyIn r (inl not_p) only)
        (round-IsLinked lba len r is_q
          (subst (λ i. HasUse p (lookup_or i [] next.parents)) (sym is_q) (round-waits p q r waits))
          f')
        last
  between (dir ∷ dirs) vol vol' lba len (not_p, inr (not_q, there)) only waits f h =
      let (next, r, last) = one_round dir dirs vol vol' h in
      between dirs next vol' lba len there (round-OnlyIn r (inl not_p) only)
        (round-waits p q r waits) (round-Fronted p lba len r (λ e. not_p (sym e)) f) last

  -- When the loop over the folders ends, and its list has the folder p once and then the parent q of
  -- p once (or p alone, when p is its own parent), and no action waits for p at the start, then the
  -- block and the length in the second record of p are those in the first record of q.
  pub plan_folders-IsLinked :
      (dirs : List Folder) (vol vol' : VolumePlan)
      → ChildFirst p q dirs
      → OnlyIn p q vol.parents
      → plan_folders blk_sz media c tmp_to_out dirs vol ≡ some vol'
      → IsLinked p q vol'
  plan_folders-IsLinked [] vol vol' there only h = absurd there
  plan_folders-IsLinked (dir ∷ dirs) vol vol' (inr (not_p, there)) only h =
      let (next, r, last) = one_round dir dirs vol vol' h in
      plan_folders-IsLinked dirs next vol' there (round-OnlyIn r (inl not_p) only) last
  plan_folders-IsLinked (dir ∷ dirs) vol vol' (inl (is_p, is_q, inl (same, apart))) only h =
      let (next, r, last) = one_round dir dirs vol vol' h in
      let lba = add64 vol.tmp.offset tmp_to_out / blk_sz % 2 ^ 32 in
      let len = r.size % 2 ^ 32 in
      let f = subst (Fronted lba len) (sym (lookup_same dir.ptr r.sized vol.burners)) r.fronted in
      after dirs next vol' apart (round-OnlyIn r (inr is_q) only)
        (round-IsLinked lba len r (is_p ∙ same)
          (subst (λ i. HasUse p (lookup_or i [] next.parents)) (sym (is_p ∙ same))
            (round-notes r is_p is_q))
          (subst (λ i. Fronted lba len (lookup_or i [] (insert dir.ptr r.sized vol.burners))) is_p
            f))
        last
  plan_folders-IsLinked (dir ∷ dirs) vol vol' (inl (is_p, is_q, inr (differ, there))) only h =
      let (next, r, last) = one_round dir dirs vol vol' h in
      let lba = add64 vol.tmp.offset tmp_to_out / blk_sz % 2 ^ 32 in
      let len = r.size % 2 ^ 32 in
      between dirs next vol' lba len there (round-OnlyIn r (inr is_q) only)
        (round-notes r is_p is_q)
        (subst (λ i. Fronted lba len (lookup_or i [] next.burners)) is_p (round-own r)) last
