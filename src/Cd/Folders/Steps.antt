-- ===== src/Cd/Folders/Steps.antt =====
-- What a round of the loop does with the records that are linked already, and with those that wait.
use mathlib.Core.Path.{subst}
use fsview.Base.{ℕ, ◌/◌, ◌%◌, ◌^◌, ◌≡◌, ◌≢◌, sym, ap, ◌∙◌, ◌⊎◌, []}
use fsview.Base.SortedMap.{insert, lookup_or}
use fsview.Base.Words.{add64}
use fsview.Extent.{Media}
use fsview.Device.{Colonies}
use fsview.Cd.Folders.{Folder, VolumePlan, noted}
use fsview.Cd.Folders.Links.{
  Fronted, Linked, HasUse, catch_up-other, catch_up-Fronted, catch_up-Linked, lookup_same,
  lookup_other,
}
use fsview.Cd.Folders.Rounds.{Round}
use fsview.Cd.Folders.Waiting.{OnlyIn, HasUse-right, pushed_here, pushed-OnlyIn, pushed-HasUse}

-- The second record of the folder p has the block and the length that the first one of q has.
pub record IsLinked (p q : ℕ) (vol : VolumePlan) : Type 0 where
  pub lba : ℕ
  pub len : ℕ
  pub own_lba : ℕ
  pub own_len : ℕ
  pub parent : Fronted lba len (lookup_or q [] vol.burners)
  pub child : Linked own_lba own_len lba len (lookup_or p [] vol.burners)

module _ {blk_sz : ℕ} {media : Media} {c : Colonies} {tmp_to_out : ℕ} where
  pub round-Fronted :
      {dir : Folder} {vol vol' : VolumePlan} (i lba len : ℕ)
      → Round blk_sz media c tmp_to_out dir vol vol'
      → i ≢ dir.ptr
      → Fronted lba len (lookup_or i [] vol.burners)
      → Fronted lba len (lookup_or i [] vol'.burners)
  round-Fronted {dir} {vol} i lba len r ne f =
      subst (λ b. Fronted lba len (lookup_or i [] b)) (sym r.burners_are)
        (catch_up-Fronted blk_sz _ _ r.size i _ _ lba len
          (subst (Fronted lba len) (sym (lookup_other dir.ptr i r.sized vol.burners ne)) f))

  -- The burner of the folder that is read in the round.
  pub round-own :
      {dir : Folder} {vol vol' : VolumePlan}
      → (r : Round blk_sz media c tmp_to_out dir vol vol')
      → Fronted
          (add64 vol.tmp.offset tmp_to_out / blk_sz % 2 ^ 32)
          (r.size % 2 ^ 32)
          (lookup_or dir.ptr [] vol'.burners)
  round-own {dir} {vol} r =
      let lba = add64 vol.tmp.offset tmp_to_out / blk_sz % 2 ^ 32 in
      subst (λ b. Fronted lba (r.size % 2 ^ 32) (lookup_or dir.ptr [] b)) (sym r.burners_are)
        (catch_up-Fronted blk_sz _ _ r.size dir.ptr _ _ lba (r.size % 2 ^ 32) (
          subst (Fronted lba (r.size % 2 ^ 32)) (sym (lookup_same dir.ptr r.sized vol.burners))
            r.fronted))

  pub round-waits :
      (p q : ℕ) {dir : Folder} {vol vol' : VolumePlan}
      → Round blk_sz media c tmp_to_out dir vol vol'
      → HasUse p (lookup_or q [] vol.parents)
      → HasUse p (lookup_or q [] vol'.parents)
  round-waits p q {dir} {vol} r h =
      subst (λ m. HasUse p (lookup_or q [] m)) (sym r.parents_are)
        (pushed-HasUse p q dir.parent_ptr _ vol.parents h)

module _ {blk_sz : ℕ} {media : Media} {c : Colonies} {tmp_to_out p q : ℕ} where
  pub round-OnlyIn :
      {dir : Folder} {vol vol' : VolumePlan}
      → Round blk_sz media c tmp_to_out dir vol vol'
      → (dir.ptr ≢ p) ⊎ (dir.parent_ptr ≡ q)
      → OnlyIn p q vol.parents
      → OnlyIn p q vol'.parents
  round-OnlyIn {dir} {vol} r other h =
      subst (OnlyIn p q) (sym r.parents_are)
        (pushed-OnlyIn p q dir.parent_ptr _ vol.parents other h)

  round-other :
      {dir : Folder} {vol vol' : VolumePlan}
      → Round blk_sz media c tmp_to_out dir vol vol'
      → dir.ptr ≢ p
      → dir.ptr ≢ q
      → OnlyIn p q vol'.parents
      → lookup_or p [] vol'.burners ≡ lookup_or p [] vol.burners
  round-other {dir} {vol} r not_p not_q only =
      ap (lookup_or p []) r.burners_are
      ∙ catch_up-other blk_sz _ _ r.size p _ _ (subst (OnlyIn p q) r.parents_are only dir.ptr not_q)
      ∙ lookup_other dir.ptr p r.sized vol.burners (λ e. not_p (sym e))

  -- The round of the parent links the folder that waits for it.
  pub round-IsLinked :
      {dir : Folder} {vol vol' : VolumePlan} (lba len : ℕ)
      → (r : Round blk_sz media c tmp_to_out dir vol vol') → dir.ptr ≡ q
      → HasUse p (lookup_or dir.ptr [] vol'.parents)
      → Fronted lba len (lookup_or p [] (insert dir.ptr r.sized vol.burners))
      → IsLinked p q vol'
  round-IsLinked {dir} {vol} {vol'} lba len r same waits f =
      let up_lba = add64 vol.tmp.offset tmp_to_out / blk_sz % 2 ^ 32 in
      let linked =
        catch_up-Linked blk_sz dir.dir_mtime (add64 vol.tmp.offset tmp_to_out) r.size p _ _ lba len
          (subst (λ m. HasUse p (lookup_or dir.ptr [] m)) r.parents_are waits) f in
      record {
        lba = up_lba;
        len = r.size % 2 ^ 32;
        own_lba = lba;
        own_len = len;
        parent =
            subst (λ i. Fronted up_lba (r.size % 2 ^ 32) (lookup_or i [] vol'.burners)) same
              (round-own r);
        child =
            subst (λ b. Linked lba len up_lba (r.size % 2 ^ 32) (lookup_or p [] b))
              (sym r.burners_are) linked;
      }

  pub round-keeps :
      {dir : Folder} {vol vol' : VolumePlan}
      → Round blk_sz media c tmp_to_out dir vol vol'
      → dir.ptr ≢ p
      → dir.ptr ≢ q
      → OnlyIn p q vol'.parents
      → IsLinked p q vol
      → IsLinked p q vol'
  round-keeps r not_p not_q only l = record {
    lba = l.lba;
    len = l.len;
    own_lba = l.own_lba;
    own_len = l.own_len;
    parent = round-Fronted q l.lba l.len r (λ e. not_q (sym e)) l.parent;
    child =
        subst (Linked l.own_lba l.own_len l.lba l.len) (sym (round-other r not_p not_q only))
          l.child;
  }

  pub round-notes :
      {dir : Folder} {vol vol' : VolumePlan}
      → Round blk_sz media c tmp_to_out dir vol vol'
      → dir.ptr ≡ p
      → dir.parent_ptr ≡ q
      → HasUse p (lookup_or q [] vol'.parents)
  round-notes {dir} {vol} r is_p is_q =
      subst (λ m. HasUse p (lookup_or q [] m)) (sym r.parents_are)
        (subst
          (λ i. HasUse p (lookup_or i [] (noted blk_sz (add64 vol.tmp.offset tmp_to_out) dir vol)))
          is_q
          (subst (HasUse p) (sym (pushed_here dir.parent_ptr _ vol.parents))
            (HasUse-right p (lookup_or dir.parent_ptr [] vol.parents) _ is_p)))
