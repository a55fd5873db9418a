-- ===== src/Hfs/FileForks/Ninth.antt =====
-- A ninth extent of a file that continues the eighth.
use mathlib.Core.Path.{subst}
use mathlib.Core.List.{append_assoc}
use fsview.Base.{
  ℕ, suc, ◌+◌, ◌-◌, ◌/◌, ◌%◌, ◌^◌, ◌≤◌, ◌≡◌, refl, ap, sym, ◌∙◌, arith, true, none, some, List, [],
  ◌∷◌, ◌++◌, map, length, replicate, length-append, ◌==◌,
}
use fsview.Hfs.Forks.{HfsPlusExtentDescriptor, HfsPlusExtentRecord, set, no_descriptor}
use fsview.Hfs.Entries.{HfsPlusExtentKey}
use fsview.Hfs.FileForks.{
  FileForks, new_file_forks, add_overflow, overflow_key, add_extent, add_extents, modify_descriptor,
  descriptor_in,
}
use fsview.Hfs.FileForks.Descriptors.{
  blocks_in, described, all_blocks, ApartFrom, EachApart, InFork, add_extent-InFork, first_InFork,
  first_overflow, first_blk, descriptor_in-last,
}

-- Where the eight descriptors of the fork are in use and the next extent begins where the eighth ends,
-- a record is added to the overflow for the block that follows, and the extent is put into the
-- eighth descriptor and not into this record.
add_extent-continues :
    (file_id blk_sz : ℕ) (x : ℕ × ℕ) (forks : FileForks)
    → forks.extent_no ≡ 8
    → forks.last ≡ some (none, 7)
    → ((descriptor_in 7 forks.own_extents).start_block
          + (descriptor_in 7 forks.own_extents).block_count)
        % 2 ^ 32
      ≡ x.0 / blk_sz
    → ((add_extent file_id blk_sz x forks).overflow
        ≡ add_overflow (overflow_key file_id forks.blk) forks.overflow)
      × ((add_extent file_id blk_sz x forks).own_extents
          ≡ modify_descriptor 7
              (λ d. set d.start_block (d.block_count + blocks_in blk_sz x))
              forks.own_extents)
unfolding add_extent
add_extent-continues file_id blk_sz x forks full last meets =
    let d = descriptor_in 7 forks.own_extents in
    let eight : (forks.extent_no == 8) ≡ true = ground (arith, full) in
    let same : ((d.start_block + d.block_count) % 2 ^ 32 == x.0 / blk_sz) ≡ true =
      ground (arith, meets) in
    rw (eight, last, same) (refl, refl)

-- Extents that fill the fork up to `last`.
fill :
    (file_id blk_sz : ℕ) (extents : List (ℕ × ℕ)) (last : ℕ × ℕ) (ds : List HfsPlusExtentDescriptor)
    (d : HfsPlusExtentDescriptor) (forks : FileForks)
    → length ds + length extents ≤ 6
    → ApartFrom blk_sz d (extents ++ (last ∷ []))
    → InFork ds d forks
    → InFork
        (ds ++ (d ∷ map (described blk_sz) extents))
        (described blk_sz last)
        (add_extents file_id blk_sz (extents ++ (last ∷ [])) forks)
      × ((add_extents file_id blk_sz (extents ++ (last ∷ [])) forks).overflow ≡ forks.overflow)
      × ((add_extents file_id blk_sz (extents ++ (last ∷ [])) forks).blk
          ≡ forks.blk + all_blocks blk_sz (extents ++ (last ∷ [])))
unfolding add_extents ApartFrom
fill file_id blk_sz [] last ds d forks few apart inv =
    let (inv', same, blk) =
      add_extent-InFork file_id blk_sz last ds d forks (omega arith) apart.0 inv in
    (inv', same, omega (arith, blk))
fill file_id blk_sz (x ∷ extents) last ds d forks few apart inv =
    let (inv', same, blk) =
      add_extent-InFork file_id blk_sz x ds d forks (omega arith) apart.0 inv in
    let next = add_extent file_id blk_sz x forks in
    let long = length-append ds (d ∷ []) in
    let (filled, same', blk') =
      fill file_id blk_sz extents last (ds ++ (d ∷ [])) (described blk_sz x) next
        (omega (arith, long)) apart.1 inv' in
    (
      subst
          (λ t.
            InFork t (described blk_sz last)
              (add_extents file_id blk_sz (extents ++ (last ∷ [])) next))
          (append_assoc ds (d ∷ []) (described blk_sz x ∷ map (described blk_sz) extents)) filled,
      same' ∙ same,
      omega (arith, blk, blk'),
    )

add_extents-snoc :
    (file_id blk_sz : ℕ) (extents : List (ℕ × ℕ)) (x : ℕ × ℕ) (forks : FileForks)
    → add_extents file_id blk_sz (extents ++ (x ∷ [])) forks
      ≡ add_extent file_id blk_sz x (add_extents file_id blk_sz extents forks)
unfolding add_extents
add_extents-snoc file_id blk_sz [] x forks = refl
add_extents-snoc file_id blk_sz (y ∷ extents) x forks =
    add_extents-snoc file_id blk_sz extents x (add_extent file_id blk_sz y forks)

modify_descriptor-last :
    (f : HfsPlusExtentDescriptor → HfsPlusExtentDescriptor) (ds : List HfsPlusExtentDescriptor)
    (d : HfsPlusExtentDescriptor)
    → modify_descriptor (length ds) f (ds ++ (d ∷ [])) ≡ ds ++ (f d ∷ [])
modify_descriptor-last f [] d = refl
modify_descriptor-last f (x ∷ ds) d = ap (λ t. x ∷ t) (modify_descriptor-last f ds d)

length-described :
    (blk_sz : ℕ) (extents : List (ℕ × ℕ)) → length (map (described blk_sz) extents) ≡ length extents
length-described blk_sz [] = refl
length-described blk_sz (x ∷ extents) = ap suc (length-described blk_sz extents)

-- The eight descriptors are in use.
record Full (ds : List HfsPlusExtentDescriptor) (d : HfsPlusExtentDescriptor) (forks : FileForks)
    : Type 0 where
  whole : forks.own_extents ≡ ds ++ (d ∷ [])
  eight : forks.extent_no ≡ 8
  eighth : forks.last ≡ some (none, 7)
  in_place : descriptor_in 7 forks.own_extents ≡ d

InFork-Full :
    (ds : List HfsPlusExtentDescriptor) (d : HfsPlusExtentDescriptor) (forks : FileForks)
    → length ds ≡ 7
    → InFork ds d forks
    → Full ds d forks
InFork-Full ds d forks seven inv =
    let none_left : 7 - length ds ≡ 0 = omega arith in
    let whole = inv.own ∙ ap (λ n. ds ++ (d ∷ replicate n no_descriptor)) none_left in
    record {
      whole = whole;
      eight = omega (arith, inv.number);
      eighth = inv.last_is ∙ ap (λ n. some (none, n)) seven;
      in_place =
          ap (descriptor_in 7) whole
          ∙ ap (λ n. descriptor_in n (ds ++ (d ∷ []))) (sym seven)
          ∙ descriptor_in-last ds [] d;
    }

-- A file of nine extents, of which the first eight do not begin where the one before ends, and the ninth
-- begins where the eighth ends: its blocks are added to the eighth descriptor, and a record for the block
-- that follows the first eight extents is looked up or made in the overflow, where nothing is put into it.
pub add_extents-ninth :
    (file_id blk_sz : ℕ) (first : ℕ × ℕ) (middle : List (ℕ × ℕ)) (eighth ninth : ℕ × ℕ)
    (overflow : List (HfsPlusExtentKey × HfsPlusExtentRecord))
    → length middle ≡ 6
    → EachApart blk_sz (first ∷ (middle ++ (eighth ∷ [])))
    → ((described blk_sz eighth).start_block + (described blk_sz eighth).block_count) % 2 ^ 32
      ≡ ninth.0 / blk_sz
    → ((add_extents file_id blk_sz
          ((first ∷ (middle ++ (eighth ∷ []))) ++ (ninth ∷ []))
          (new_file_forks overflow)).own_extents
        ≡ map (described blk_sz) (first ∷ middle)
          ++ (set
                (described blk_sz eighth).start_block
                ((described blk_sz eighth).block_count + blocks_in blk_sz ninth)
              ∷ []))
      × ((add_extents file_id blk_sz
            ((first ∷ (middle ++ (eighth ∷ []))) ++ (ninth ∷ []))
            (new_file_forks overflow)).overflow
          ≡ add_overflow
              (overflow_key file_id (all_blocks blk_sz (first ∷ (middle ++ (eighth ∷ [])))))
              overflow)
unfolding EachApart
add_extents-ninth file_id blk_sz first middle eighth ninth overflow six apart meets =
    let start = add_extent file_id blk_sz first (new_file_forks overflow) in
    let before = add_extents file_id blk_sz (middle ++ (eighth ∷ [])) start in
    let ds = map (described blk_sz) (first ∷ middle) in
    let d = described blk_sz eighth in
    let (inv, same, blk) =
      fill file_id blk_sz middle eighth [] (described blk_sz first) start (omega arith) apart
        (first_InFork file_id blk_sz first overflow) in
    let seven : length ds ≡ 7 = omega (arith, length-described blk_sz middle) in
    let full = InFork-Full ds d before seven inv in
    let joins : ((descriptor_in 7 before.own_extents).start_block
            + (descriptor_in 7 before.own_extents).block_count)
          % 2 ^ 32
        ≡ ninth.0 / blk_sz =
      ap (λ t. (t.start_block + t.block_count) % 2 ^ 32) full.in_place ∙ meets in
    let (over, own) =
      add_extent-continues file_id blk_sz ninth before full.eight full.eighth joins in
    let f =
      λ (t : HfsPlusExtentDescriptor). set t.start_block (t.block_count + blocks_in blk_sz ninth) in
    let run : add_extents file_id blk_sz ((first ∷ (middle ++ (eighth ∷ []))) ++ (ninth ∷ []))
          (new_file_forks overflow)
        ≡ add_extent file_id blk_sz ninth before =
      unfold add_extents in add_extents-snoc file_id blk_sz (middle ++ (eighth ∷ [])) ninth start in
    let counted : before.blk ≡ all_blocks blk_sz (first ∷ (middle ++ (eighth ∷ []))) =
      omega (arith, blk, first_blk file_id blk_sz first overflow) in
    (
      ap (λ (t : FileForks). t.own_extents) run
          ∙ own
          ∙ ap (modify_descriptor 7 f) full.whole
          ∙ ap (λ n. modify_descriptor n f (ds ++ (d ∷ []))) (sym seven)
          ∙ modify_descriptor-last f ds d,
      ap (λ (t : FileForks). t.overflow) run
          ∙ over
          ∙ ap (λ n. add_overflow (overflow_key file_id n) before.overflow) counted
          ∙ ap
              (add_overflow
                (overflow_key file_id (all_blocks blk_sz (first ∷ (middle ++ (eighth ∷ []))))))
              (same ∙ first_overflow file_id blk_sz first overflow),
    )
