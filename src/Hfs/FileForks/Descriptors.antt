-- ===== src/Hfs/FileForks/Descriptors.antt =====
-- What the descriptors of a file say.
use mathlib.Core.List.{append_assoc}
use fsview.Base.{
  ℕ, suc, ◌+◌, ◌-◌, ◌/◌, ◌%◌, ◌^◌, ◌≤◌, ◌≡◌, ◌≢◌, refl, ap, sym, ◌∙◌, arith, false, none, some,
  List, [], ◌∷◌, ◌++◌, map, length, replicate, length-append, ◌==◌,
}
use fsview.Extent.{round_up}
use fsview.Hfs.Forks.{HfsPlusExtentDescriptor, HfsPlusExtentRecord, set, no_descriptor}
use fsview.Hfs.Entries.{HfsPlusExtentKey}
use fsview.Hfs.FileForks.{
  FileForks, new_file_forks, continues, place_extent, add_extent, add_extents, modify_descriptor,
  descriptor_in,
}

-- The blocks of an extent, and its descriptor.
abbrev pub blocks_in : ℕ → ℕ × ℕ → ℕ
blocks_in blk_sz x = round_up x.1 blk_sz / blk_sz

abbrev pub described : ℕ → ℕ × ℕ → HfsPlusExtentDescriptor
described blk_sz x = set (x.0 / blk_sz) (blocks_in blk_sz x)

abbrev pub all_blocks : ℕ → List (ℕ × ℕ) → ℕ
all_blocks blk_sz [] = 0
all_blocks blk_sz (x ∷ extents) = blocks_in blk_sz x + all_blocks blk_sz extents

-- No extent begins at the block where the one before it, or `d`, ends.
unfoldable pub ApartFrom : ℕ → HfsPlusExtentDescriptor → List (ℕ × ℕ) → Type 0
ApartFrom blk_sz d [] = Unit
ApartFrom blk_sz d (x ∷ extents) =
    ((d.start_block + d.block_count) % 2 ^ 32 ≢ x.0 / blk_sz)
    × ApartFrom blk_sz (described blk_sz x) extents

unfoldable pub EachApart : ℕ → List (ℕ × ℕ) → Type 0
EachApart blk_sz [] = Unit
EachApart blk_sz (x ∷ extents) = ApartFrom blk_sz (described blk_sz x) extents

modify_descriptor-next :
    (ds rest : List HfsPlusExtentDescriptor) (d' d : HfsPlusExtentDescriptor)
    → modify_descriptor (length ds) (λ _. d) (ds ++ (d' ∷ rest)) ≡ ds ++ (d ∷ rest)
modify_descriptor-next [] rest d' d = refl
modify_descriptor-next (x ∷ ds) rest d' d = ap (λ t. x ∷ t) (modify_descriptor-next ds rest d' d)

pub descriptor_in-last :
    (ds rest : List HfsPlusExtentDescriptor) (d : HfsPlusExtentDescriptor)
    → descriptor_in (length ds) (ds ++ (d ∷ rest)) ≡ d
descriptor_in-last [] rest d = refl
descriptor_in-last (x ∷ ds) rest d = descriptor_in-last ds rest d

-- The fork's own record, with `n` descriptors of it in use; the last one is after those of `ds`.
pub record InFork (ds : List HfsPlusExtentDescriptor) (d : HfsPlusExtentDescriptor)
    (forks : FileForks) : Type 0 where
  pub own : forks.own_extents ≡ ds ++ (d ∷ replicate (7 - length ds) no_descriptor)
  pub number : forks.extent_no ≡ length ds + 1
  pub in_own : forks.desc ≡ none
  pub last_is : forks.last ≡ some (none, length ds)

-- Room for one more: the descriptor after the last one is written, and nothing else changes.
grow :
    (ds : List HfsPlusExtentDescriptor) (d e : HfsPlusExtentDescriptor)
    → length ds ≤ 6
    → modify_descriptor
        (length ds + 1)
        (λ _. e)
        (ds ++ (d ∷ replicate (7 - length ds) no_descriptor))
      ≡ (ds ++ (d ∷ [])) ++ (e ∷ replicate (7 - length (ds ++ (d ∷ []))) no_descriptor)
grow ds d e few =
    let long = length-append ds (d ∷ []) in
    let one : length ds + 1 ≡ length (ds ++ (d ∷ [])) = omega (arith, long) in
    let room : 7 - length ds ≡ suc (7 - length (ds ++ (d ∷ []))) = omega (arith, long) in
    let rest = replicate (7 - length (ds ++ (d ∷ []))) no_descriptor in
    ap (λ n. modify_descriptor n (λ _. e) (ds ++ (d ∷ replicate (7 - length ds) no_descriptor))) one
    ∙ ap
        (λ n.
          modify_descriptor (length (ds ++ (d ∷ []))) (λ _. e)
            (ds ++ (d ∷ replicate n no_descriptor)))
        room
    ∙ ap (modify_descriptor (length (ds ++ (d ∷ []))) (λ _. e))
        (sym (append_assoc ds (d ∷ []) (no_descriptor ∷ rest)))
    ∙ modify_descriptor-next (ds ++ (d ∷ [])) rest no_descriptor e

-- An extent that begins a descriptor in the fork.
abbrev placed_own : FileForks → ℕ → ℕ → FileForks
placed_own forks extent_lba length_lba = record forks {
  own_extents =
      modify_descriptor forks.extent_no (λ _. set extent_lba length_lba) forks.own_extents;
  extent_no = forks.extent_no + 1;
  last = some (forks.desc, forks.extent_no);
}

placed_in_fork :
    (forks : FileForks) (extent_lba length_lba : ℕ)
    → forks.desc ≡ none
    → continues forks.last extent_lba forks ≡ false
    → place_extent extent_lba length_lba forks ≡ placed_own forks extent_lba length_lba
placed_in_fork forks extent_lba length_lba hd hc = rw (hc, hd) refl

pub add_extent-InFork :
    (file_id blk_sz : ℕ) (x : ℕ × ℕ) (ds : List HfsPlusExtentDescriptor)
    (d : HfsPlusExtentDescriptor) (forks : FileForks)
    → length ds ≤ 6
    → (d.start_block + d.block_count) % 2 ^ 32 ≢ x.0 / blk_sz
    → InFork ds d forks
    → InFork (ds ++ (d ∷ [])) (described blk_sz x) (add_extent file_id blk_sz x forks)
      × ((add_extent file_id blk_sz x forks).overflow ≡ forks.overflow)
      × ((add_extent file_id blk_sz x forks).blk ≡ forks.blk + blocks_in blk_sz x)
unfolding add_extent
add_extent-InFork file_id blk_sz x ds d forks few apart inv =
    let room : (forks.extent_no == 8) ≡ false = ground (arith, inv.number) in
    let here : descriptor_in (length ds) forks.own_extents ≡ d =
      ap (descriptor_in (length ds)) inv.own
      ∙ descriptor_in-last ds (replicate (7 - length ds) no_descriptor) d in
    let new : ((d.start_block + d.block_count) % 2 ^ 32 == x.0 / blk_sz) ≡ false = ground arith in
    let starts : continues forks.last (x.0 / blk_sz) forks ≡ false = rw (inv.last_is, here) new in
    let placed = placed_in_fork forks (x.0 / blk_sz) (blocks_in blk_sz x) inv.in_own starts in
    rw (room, placed)
      (
        record {
          own =
              ap (λ n. modify_descriptor n (λ _. described blk_sz x) forks.own_extents) inv.number
              ∙ ap (modify_descriptor (length ds + 1) (λ _. described blk_sz x)) inv.own
              ∙ grow ds d (described blk_sz x) few;
          number = omega (arith, inv.number, length-append ds (d ∷ []));
          in_own = inv.in_own;
          last_is =
              ap (λ desc. some (desc, forks.extent_no)) inv.in_own
              ∙ ap (λ n. some (none, n)) (inv.number ∙ sym (length-append ds (d ∷ [])));
        },
        refl,
        refl,
      )

add_more :
    (file_id blk_sz : ℕ) (extents : List (ℕ × ℕ)) (ds : List HfsPlusExtentDescriptor)
    (d : HfsPlusExtentDescriptor) (forks : FileForks)
    → length ds + length extents ≤ 7
    → ApartFrom blk_sz d extents
    → InFork ds d forks
    → ((add_extents file_id blk_sz extents forks).own_extents
        ≡ ds
          ++ (d
              ∷ (map (described blk_sz) extents
                  ++ replicate (7 - (length ds + length extents)) no_descriptor)))
      × ((add_extents file_id blk_sz extents forks).overflow ≡ forks.overflow)
      × ((add_extents file_id blk_sz extents forks).blk ≡ forks.blk + all_blocks blk_sz extents)
unfolding add_extents add_extent ApartFrom
add_more file_id blk_sz [] ds d forks few apart inv =
    let none_more : 7 - (length ds + 0) ≡ 7 - length ds = omega arith in
    (rw none_more inv.own, refl, omega arith)
add_more file_id blk_sz (x ∷ extents) ds d forks few apart inv =
    let (inv', same, blocks) =
      add_extent-InFork file_id blk_sz x ds d forks (omega arith) apart.0 inv in
    let long = length-append ds (d ∷ []) in
    let (own, overflow, blk) =
      add_more file_id blk_sz extents (ds ++ (d ∷ [])) (described blk_sz x)
        (add_extent file_id blk_sz x forks) (omega (arith, long)) apart.1 inv' in
    let left : 7 - (length (ds ++ (d ∷ [])) + length extents)
        ≡ 7 - (length ds + suc (length extents)) =
      omega (arith, long) in
    let rest = map (described blk_sz) extents in
    (
      own
          ∙ ap (λ n. (ds ++ (d ∷ [])) ++ (described blk_sz x ∷ (rest ++ replicate n no_descriptor)))
              left
          ∙ append_assoc ds (d ∷ []) (
              described blk_sz x
              ∷ (rest ++ replicate (7 - (length ds + suc (length extents))) no_descriptor)),
      overflow ∙ same,
      omega (arith, blk, blocks),
    )

pub first_InFork :
    (file_id blk_sz : ℕ) (x : ℕ × ℕ) (overflow : List (HfsPlusExtentKey × HfsPlusExtentRecord))
    → InFork [] (described blk_sz x) (add_extent file_id blk_sz x (new_file_forks overflow))
unfolding add_extent
first_InFork file_id blk_sz x overflow = record {
  own = refl;
  number = refl;
  in_own = refl;
  last_is = refl;
}

pub first_overflow :
    (file_id blk_sz : ℕ) (x : ℕ × ℕ) (overflow : List (HfsPlusExtentKey × HfsPlusExtentRecord))
    → (add_extent file_id blk_sz x (new_file_forks overflow)).overflow ≡ overflow
unfolding add_extent
first_overflow file_id blk_sz x overflow = refl

pub first_blk :
    (file_id blk_sz : ℕ) (x : ℕ × ℕ) (overflow : List (HfsPlusExtentKey × HfsPlusExtentRecord))
    → (add_extent file_id blk_sz x (new_file_forks overflow)).blk ≡ blocks_in blk_sz x
unfolding add_extent
first_blk file_id blk_sz x overflow = omega arith

-- A file of at most eight extents, none of which begins at the block where the one before it ends,
-- has one descriptor for each extent in its fork, in their order, and the rest of the eight are
-- empty. Nothing is added to the overflow, and the blocks are counted together.
pub add_extents-own :
    (file_id blk_sz : ℕ) (extents : List (ℕ × ℕ))
    (overflow : List (HfsPlusExtentKey × HfsPlusExtentRecord))
    → length extents ≤ 8
    → EachApart blk_sz extents
    → ((add_extents file_id blk_sz extents (new_file_forks overflow)).own_extents
        ≡ map (described blk_sz) extents ++ replicate (8 - length extents) no_descriptor)
      × ((add_extents file_id blk_sz extents (new_file_forks overflow)).overflow ≡ overflow)
      × ((add_extents file_id blk_sz extents (new_file_forks overflow)).blk
          ≡ all_blocks blk_sz extents)
unfolding add_extents EachApart
add_extents-own file_id blk_sz [] overflow few apart = (refl, refl, refl)
add_extents-own file_id blk_sz (x ∷ extents) overflow few apart =
    let (own, same, blk) =
      add_more file_id blk_sz extents [] (described blk_sz x)
        (add_extent file_id blk_sz x (new_file_forks overflow)) (omega arith) apart
        (first_InFork file_id blk_sz x overflow) in
    let left : 7 - (0 + length extents) ≡ 8 - suc (length extents) = omega arith in
    (
      own
          ∙ ap
              (λ n.
                described blk_sz x ∷ (map (described blk_sz) extents ++ replicate n no_descriptor))
              left,
      same ∙ first_overflow file_id blk_sz x overflow,
      blk ∙ ap (λ n. n + all_blocks blk_sz extents) (first_blk file_id blk_sz x overflow),
    )
