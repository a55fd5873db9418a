-- ===== src/Cd/Folders/Links.antt =====
-- The first two records of a folder name its own place and that of its parent.
use mathlib.Core.Path.{subst}
use mathlib.Core.Logic.{⊎_elim}
use mathlib.Core.List.{append-nil, append_assoc}
use fsview.Base.{
  ℕ, ◌/◌, ◌%◌, ◌^◌, ◌≡◌, ◌≢◌, refl, sym, ap, ◌∙◌, ◌⊎◌, inl, inr, arith, Option, none, some, List,
  [], ◌∷◌, ◌++◌, length, if◌then◌else◌, ltb, eq_or_ne, All, ◌>>=◌, >>=-eq-some,
}
use fsview.Base.SortedMap.{insert, lookup_or, lookup_or-insert}
use fsview.Extent.{Media, padding}
use fsview.Burner.{slice}
use fsview.Device.{Colonies}
use fsview.Cd.{
  DirEntryDtTime, DirectoryEntry, after_size, entry_bytes, write_entry, write_entries, both, zeros,
  header_bytes, text_size,
}
use fsview.Cd.PathTable.{FolDef}
use fsview.Cd.Folders.{
  NamedEntry, no_def, Use, patch, entry_records, with_name, each_entry, apply_use, catch_up,
}

-- A folder whose first record has this block and this length.
pub record Fronted (lba len : ℕ) (bytes : List ℕ) : Type 0 where
  pub own : DirectoryEntry
  pub up : DirectoryEntry
  pub rest : List ℕ
  pub spelled : bytes ≡ entry_bytes own ++ (entry_bytes up ++ rest)
  pub own_lba : own.extent_lba ≡ lba
  pub own_len : own.length_field ≡ len

-- One whose second record has the block and the length of the parent besides.
pub record Linked (lba len up_lba up_len : ℕ) (bytes : List ℕ) : Type 0 where
  pub fronted : Fronted lba len bytes
  pub parent_lba : fronted.up.extent_lba ≡ up_lba
  pub parent_len : fronted.up.length_field ≡ up_len

abbrev pub HasUse : ℕ → List Use → Type 0
HasUse p [] = ⊥
HasUse p (u ∷ uses) = (u.use_of ≡ p) ⊎ HasUse p uses

pub lookup_same : (k : ℕ) (v : List ℕ) (m : List (ℕ × List ℕ)) → lookup_or k [] (insert k v m) ≡ v
lookup_same k v m = lookup_or-insert k k v [] m ∙ ground arith

pub lookup_other :
    (k i : ℕ) (v : List ℕ) (m : List (ℕ × List ℕ))
    → i ≢ k
    → lookup_or i [] (insert k v m) ≡ lookup_or i [] m
lookup_other k i v m h = lookup_or-insert k i v [] m ∙ ground arith

patch_up :
    (own up new : DirectoryEntry) (rest : List ℕ)
    → patch 34 (entry_bytes new) (entry_bytes own ++ (entry_bytes up ++ rest))
      ≡ entry_bytes own ++ (entry_bytes new ++ rest)
unfolding after_size
patch_up own up new rest = refl

pub patch_length :
    (own : DirectoryEntry) (n : ℕ) (rest : List ℕ)
    → patch 10 (both 4 n) (entry_bytes own ++ rest)
      ≡ entry_bytes (record own { length_field = n }) ++ rest
unfolding after_size
patch_length own n rest = refl

module _ (blk_sz : ℕ) (time : DirEntryDtTime) (offset len p : ℕ) where
  apply_use-other :
      (u : Use) (burners : List (ℕ × List ℕ))
      → u.use_of ≢ p
      → lookup_or p [] (apply_use blk_sz time offset len u burners) ≡ lookup_or p [] burners
  unfolding apply_use
  apply_use-other u burners h = lookup_other u.use_of p _ burners (λ e. h (sym e))

  apply_use-Linked :
      (u : Use) (burners : List (ℕ × List ℕ)) (lba size : ℕ)
      → u.use_of ≡ p
      → Fronted lba size (lookup_or p [] burners)
      → Linked lba size
          (offset / blk_sz % 2 ^ 32)
          (len % 2 ^ 32)
          (lookup_or p [] (apply_use blk_sz time offset len u burners))
  unfolding apply_use
  apply_use-Linked u burners lba size h f =
      let lfield : DirectoryEntry = record (u.field) {
        date_time = time;
        extent_lba = offset / blk_sz % 2 ^ 32;
        length_field = len % 2 ^ 32;
      } in
      let there : lookup_or p [] (apply_use blk_sz time offset len u burners)
          ≡ entry_bytes f.own ++ (entry_bytes lfield ++ f.rest) =
        ap (λ k. lookup_or k [] (apply_use blk_sz time offset len u burners)) (sym h)
        ∙ lookup_same u.use_of _ burners
        ∙ ap (λ k. patch 34 (entry_bytes lfield) (lookup_or k [] burners)) h
        ∙ ap (patch 34 (entry_bytes lfield)) f.spelled
        ∙ patch_up f.own f.up lfield f.rest in
      record {
        fronted = record {
          own = f.own;
          up = lfield;
          rest = f.rest;
          spelled = there;
          own_lba = f.own_lba;
          own_len = f.own_len;
        };
        parent_lba = refl;
        parent_len = refl;
      }

  pub catch_up-other :
      (uses : List Use) (burners : List (ℕ × List ℕ))
      → All (λ (u : Use). u.use_of ≢ p) uses
      → lookup_or p [] (catch_up blk_sz time offset len uses burners) ≡ lookup_or p [] burners
  unfolding catch_up
  catch_up-other [] burners h = refl
  catch_up-other (u ∷ uses) burners (k, h) =
      catch_up-other uses (apply_use blk_sz time offset len u burners) h
      ∙ apply_use-other u burners k

  catch_up-kept :
      (uses : List Use) (burners : List (ℕ × List ℕ)) (lba size : ℕ)
      → Linked lba size (offset / blk_sz % 2 ^ 32) (len % 2 ^ 32) (lookup_or p [] burners)
      → Linked lba size
          (offset / blk_sz % 2 ^ 32)
          (len % 2 ^ 32)
          (lookup_or p [] (catch_up blk_sz time offset len uses burners))
  unfolding catch_up
  catch_up-kept [] burners lba size l = l
  catch_up-kept (u ∷ uses) burners lba size l =
      catch_up-kept uses (apply_use blk_sz time offset len u burners) lba size
        (elim (eq_or_ne u.use_of p) [
          | inl e ↦ apply_use-Linked u burners lba size e l.fronted
          | inr ne ↦
              subst (Linked lba size (offset / blk_sz % 2 ^ 32) (len % 2 ^ 32))
                (sym (apply_use-other u burners ne)) l
        ])

  pub catch_up-Fronted :
      (uses : List Use) (burners : List (ℕ × List ℕ)) (lba size : ℕ)
      → Fronted lba size (lookup_or p [] burners)
      → Fronted lba size (lookup_or p [] (catch_up blk_sz time offset len uses burners))
  unfolding catch_up
  catch_up-Fronted [] burners lba size f = f
  catch_up-Fronted (u ∷ uses) burners lba size f =
      catch_up-Fronted uses (apply_use blk_sz time offset len u burners) lba size
        (elim (eq_or_ne u.use_of p) [
          | inl e ↦ (apply_use-Linked u burners lba size e f).fronted
          | inr ne ↦ subst (Fronted lba size) (sym (apply_use-other u burners ne)) f
        ])

  pub catch_up-Linked :
      (uses : List Use) (burners : List (ℕ × List ℕ)) (lba size : ℕ)
      → HasUse p uses
      → Fronted lba size (lookup_or p [] burners)
      → Linked lba size
          (offset / blk_sz % 2 ^ 32)
          (len % 2 ^ 32)
          (lookup_or p [] (catch_up blk_sz time offset len uses burners))
  unfolding catch_up
  catch_up-Linked [] burners lba size h f = absurd h
  catch_up-Linked (u ∷ uses) burners lba size h f = elim (eq_or_ne u.use_of p) [
    | inl e ↦
        catch_up-kept uses (apply_use blk_sz time offset len u burners) lba size
          (apply_use-Linked u burners lba size e f)
    | inr ne ↦
        catch_up-Linked uses (apply_use blk_sz time offset len u burners) lba size
          (⊎_elim (λ e. absurd (ne e)) (λ k. k) h)
          (subst (Fronted lba size) (sym (apply_use-other u burners ne)) f)
  ]

some_or : List ℕ → Option (ℕ × List ℕ) → List ℕ
some_or d none = d
some_or d (some r) = r.1

-- Writing records only adds bytes.
write_entry-grows :
    (blk_sz : ℕ) (die : DirectoryEntry) (enc out : List ℕ) (r : ℕ × List ℕ)
    → write_entry blk_sz die enc out ≡ some r
    → (rest : List ℕ) × (r.1 ≡ out ++ rest)
unfolding write_entry some_or
write_entry-grows blk_sz die enc out r h =
    let pad = padding (length out) blk_sz in
    let free = if ltb pad die.entry_sz then zeros pad else [] in
    let f =
      λ (text : List ℕ). some (length (out ++ free), (out ++ free) ++ (header_bytes die ++ text)) in
    let (text, e, last) = >>=-eq-some (slice 0 (text_size die) (enc ++ (0 ∷ []))) f {b = r} h in
    (
      free ++ (header_bytes die ++ text),
      sym (ap (some_or []) last) ∙ append_assoc out free (header_bytes die ++ text),
    )

write_entries-grows :
    (blk_sz : ℕ) (dies : List (DirectoryEntry × List ℕ)) (out out' : List ℕ)
    → write_entries blk_sz dies out ≡ some out'
    → (rest : List ℕ) × (out' ≡ out ++ rest)
write_entries-grows blk_sz [] out out' h =
    let same : out ≡ out' = unfold write_entries in cc in ([], sym same ∙ sym (append-nil out))
write_entries-grows blk_sz ((die, enc) ∷ dies) out out' h =
    let f = λ (t : ℕ × List ℕ). write_entries blk_sz dies t.1 in
    let opened : (write_entry blk_sz die enc out >>= f) ≡ some out' = unfold write_entries in h in
    let ((cur, next), e, last) = >>=-eq-some (write_entry blk_sz die enc out) f {b = out'} opened in
    let (first, grown) = write_entry-grows blk_sz die enc out (cur, next) e in
    let (later, grown') = write_entries-grows blk_sz dies next out' last in
    (first ++ later, grown' ∙ ap (λ t. t ++ later) grown ∙ append_assoc out first later)

pub each_entry-grows :
    (blk_sz : ℕ) (media : Media) (c : Colonies) (es : List NamedEntry) (out : List ℕ)
    (folders : List (ℕ × FolDef)) (result : List ℕ × List (ℕ × FolDef))
    → each_entry blk_sz media c es out folders ≡ some result
    → (rest : List ℕ) × (result.0 ≡ out ++ rest)
each_entry-grows blk_sz media c [] out folders result h =
    let same : (out, folders) ≡ result = unfold each_entry in cc in
    ([], sym (ap (λ (t : List ℕ × List (ℕ × FolDef)). t.0) same) ∙ sym (append-nil out))
each_entry-grows blk_sz media c (e ∷ es) out folders result h =
    let def = lookup_or e.entry_ptr no_def folders in
    let named = insert e.entry_ptr (record def { conv = e.conv; enc_name = e.enc_name }) folders in
    let f = λ (t : List ℕ). each_entry blk_sz media c es t (if e.is_file then folders else named) in
    let g =
      λ (dies : List DirectoryEntry). write_entries blk_sz (with_name e.enc_name dies) out >>= f in
    let opened : (entry_records blk_sz media c folders e >>= g) ≡ some result =
      unfold each_entry in h in
    let (dies, made, h') =
      >>=-eq-some (entry_records blk_sz media c folders e) g {b = result} opened in
    let (next, wrote, last) =
      >>=-eq-some (write_entries blk_sz (with_name e.enc_name dies) out) f {b = result} h' in
    let (first, grown) = write_entries-grows blk_sz (with_name e.enc_name dies) out next wrote in
    let (later, grown') =
      each_entry-grows blk_sz media c es next (if e.is_file then folders else named) result last in
    (first ++ later, grown' ∙ ap (λ t. t ++ later) grown ∙ append_assoc out first later)
