-- ===== src/Cd/Folders/Rounds.antt =====
-- One round of the loop over the folders: what it does with the burners and the waiting actions.
use mathlib.Core.Path.{subst}
use mathlib.Core.List.{append_assoc}
use fsview.Base.{
  ℕ, ◌/◌, ◌%◌, ◌^◌, ◌≡◌, refl, ap, ◌∙◌, some, List, [], ◌++◌, length, ◌>>=◌, >>=-eq-some,
}
use fsview.Base.SortedMap.{insert, lookup_or}
use fsview.Base.Words.{add64}
use fsview.Extent.{Extent, Media, padding}
use fsview.Burner.{Planner, append}
use fsview.Device.{Colonies}
use fsview.Cd.{DirectoryEntry, entry_bytes, wrap_folder, both, zeros}
use fsview.Cd.PathTable.{FolDef}
use fsview.Cd.Folders.{
  Folder, VolumePlan, patch, each_entry, catch_up, own_dot, parent_dot, plan_folder, noted,
  close_folder, append_folder,
}
use fsview.Cd.Folders.Links.{Fronted, each_entry-grows, patch_length}

module _ (blk_sz : ℕ) (media : Media) (c : Colonies) (tmp_to_out : ℕ) where
  -- What a round does with the burners.
  pub record Round (dir : Folder) (vol vol' : VolumePlan) : Type 0 where
    pub size : ℕ
    pub sized : List ℕ
    pub fronted : Fronted (add64 vol.tmp.offset tmp_to_out / blk_sz % 2 ^ 32) (size % 2 ^ 32) sized
    pub parents_are : vol'.parents ≡ noted blk_sz (add64 vol.tmp.offset tmp_to_out) dir vol
    pub burners_are :
        vol'.burners
        ≡ catch_up blk_sz dir.dir_mtime
            (add64 vol.tmp.offset tmp_to_out)
            size
            (lookup_or dir.ptr [] (noted blk_sz (add64 vol.tmp.offset tmp_to_out) dir vol))
            (insert dir.ptr sized vol.burners)

  wrapped :
      (own up : DirectoryEntry) (out rest : List ℕ)
      → out ≡ (entry_bytes own ++ entry_bytes up) ++ rest
      → wrap_folder blk_sz out
        ≡ entry_bytes own ++ (entry_bytes up ++ (rest ++ zeros (padding (length out) blk_sz)))
  unfolding wrap_folder
  wrapped own up out rest h =
      ap (λ t. t ++ zeros (padding (length out) blk_sz)) h ∙ simp append_assoc

  closed :
      (dir : Folder) (vol : VolumePlan) (out rest : List ℕ) (folders : List (ℕ × FolDef))
      (tmp : Planner)
      → out
        ≡ (entry_bytes (own_dot blk_sz (add64 vol.tmp.offset tmp_to_out) dir vol.dot)
            ++ entry_bytes (parent_dot blk_sz (add64 vol.tmp.offset tmp_to_out) dir vol.dot))
          ++ rest
      → Round dir vol (
          close_folder blk_sz
            (add64 vol.tmp.offset tmp_to_out)
            dir
            vol
            (wrap_folder blk_sz out)
            folders
            tmp)
  unfolding close_folder
  closed dir vol out rest folders tmp h =
      let offset = add64 vol.tmp.offset tmp_to_out in
      let own = own_dot blk_sz offset dir vol.dot in
      let up = parent_dot blk_sz offset dir vol.dot in
      let whole = wrap_folder blk_sz out in
      let n = length whole % 2 ^ 32 in
      let free = zeros (padding (length out) blk_sz) in
      record {
        size = length whole;
        sized = patch 10 (both 4 n) whole;
        fronted = record {
          own = record own { length_field = n };
          up = up;
          rest = rest ++ free;
          spelled =
              ap (patch 10 (both 4 n)) (wrapped own up out rest h)
              ∙ patch_length own n (entry_bytes up ++ (rest ++ free));
          own_lba = refl;
          own_len = refl;
        };
        parents_are = refl;
        burners_are = refl;
      }

  appended :
      (dir : Folder) (vol vol' : VolumePlan) (whole : List ℕ) (folders : List (ℕ × FolDef))
      (offset : ℕ)
      → append_folder blk_sz offset dir vol whole folders ≡ some vol'
      → (tmp : Planner) × (close_folder blk_sz offset dir vol whole folders tmp ≡ vol')
  appended dir vol vol' whole folders offset h =
      let x : Extent = record { offset = 0; length = length whole; medium = some dir.ptr } in
      let f = λ (r : ℕ × Planner). some (close_folder blk_sz offset dir vol whole folders r.1) in
      let opened : (append x vol.tmp >>= f) ≡ some vol' = unfold append_folder in h in
      let (r, e, last) = >>=-eq-some (append x vol.tmp) f {b = vol'} opened in (r.1, cc)

  pub round :
      (dir : Folder) (vol vol' : VolumePlan)
      → plan_folder blk_sz media c tmp_to_out dir vol ≡ some vol'
      → Round dir vol vol'
  round dir vol vol' h =
      let offset = add64 vol.tmp.offset tmp_to_out in
      let front =
        entry_bytes (own_dot blk_sz offset dir vol.dot)
        ++ entry_bytes (parent_dot blk_sz offset dir vol.dot) in
      let f = λ (r : List ℕ × List (ℕ × FolDef)).
        append_folder blk_sz offset dir vol (wrap_folder blk_sz r.0) r.1 in
      let opened : (each_entry blk_sz media c dir.entries front vol.folders >>= f) ≡ some vol' =
        unfold plan_folder in h in
      let ((out, folders), e, last) =
        >>=-eq-some (each_entry blk_sz media c dir.entries front vol.folders) f {b = vol'} opened in
      let (rest, grown) =
        each_entry-grows blk_sz media c dir.entries front vol.folders (out, folders) e in
      let (tmp, done) = appended dir vol vol' (wrap_folder blk_sz out) folders offset last in
      subst (Round dir vol) done (closed dir vol out rest folders tmp grown)
