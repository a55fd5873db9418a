-- ===== src/Fat.antt =====
-- VFatMedium of impl/vfat32.h and impl/vfat32.cpp: the file allocation table as a rule with
-- amendments, and the chains that VFat32Out::plan puts into it. Clusters are not negative. The table
-- is the one of a read-only disk (`_favor_freespace` is false) but for set_line.
pub mod Headers
pub mod Entry
pub mod LongName
pub mod Chain
pub mod Fill
mod Tests
use fsview.Base.{
  ℕ, zero, suc, ◌+◌, ◌-◌, ◌*◌, ◌/◌, ◌%◌, ◌^◌, min, Bool, true, false, Option, none, some, List, [],
  ◌∷◌, ◌++◌, if◌then◌else◌, leb, ◌>>=◌,
}
use fsview.Base.SortedMap.{insert, lookup}
use fsview.Extent.{round_up}

abbrev pub endmark : ℕ
endmark = 0x0fffffff

-- An amendment is the word that it stores at its key, a byte offset.
pub record VFatMedium : Type 0 where
  pub favor_freespace : Bool
  pub total_bytes : ℕ
  pub chunk_size : ℕ
  pub amendments : List (ℕ × ℕ)

abbrev pub amend : ℕ → ℕ → VFatMedium → VFatMedium
amend offset value fat = record fat { amendments = insert offset (value % 2 ^ 32) fat.amendments }

-- `vec` is the size of a ClusterVec, which is the block size of the medium.
unfoldable pub reserve : ℕ → ℕ → VFatMedium → VFatMedium
reserve vec block_count fat = record fat {
  total_bytes = block_count * 4;
  chunk_size = min (round_up (block_count * 4) vec) (2 ^ 18);
}

abbrev pub shadow_at : ℕ → Option ℕ → VFatMedium → VFatMedium
shadow_at offset none fat = amend offset endmark fat
shadow_at offset (some value) fat = fat

unfoldable pub shadow : ℕ → VFatMedium → VFatMedium
shadow cur_first fat =
    if leb cur_first 2
    then fat
    else shadow_at ((cur_first - 1) * 4) (lookup ((cur_first - 1) * 4) fat.amendments) fat

-- The loop of setLine on a writable disk, over `count` clusters from `blk`.
unfoldable pub link_each : ℕ → ℕ → VFatMedium → VFatMedium
link_each blk zero fat = fat
link_each blk (suc count) fat = link_each (blk + 1) count (amend (blk * 4) (blk + 1) fat)

unfoldable pub set_line : ℕ → ℕ → VFatMedium → VFatMedium
unfolding shadow link_each
set_line cur_first cur_last fat =
    if fat.favor_freespace
    then link_each cur_first (cur_last - cur_first) fat
    else shadow cur_first fat

unfoldable pub set_next : ℕ → ℕ → VFatMedium → Option VFatMedium
set_next last_prev first_next fat =
    if leb fat.total_bytes (last_prev * 4)
    then none
    else some (amend (last_prev * 4) first_next fat)

unfoldable pub set_last : ℕ → VFatMedium → Option VFatMedium
unfolding set_next
set_last last_last fat = set_next last_last endmark fat

-- The loop of plan over the extents of a file, from the last one to the first: an extent is its first
-- and its last cluster.
unfoldable pub set_chain : List (ℕ × ℕ) → VFatMedium → Option VFatMedium
unfolding set_line set_next set_last
set_chain [] fat = some fat
set_chain ((first, last) ∷ []) fat = set_last last (set_line first last fat)
set_chain ((first, last) ∷ (first', last') ∷ rest) fat = do
  fat' ← set_chain ((first', last') ∷ rest) fat
  set_next last first' (set_line first last fat')

-- What the scalar loop of fill() writes: `count` words after `start_val`.
unfoldable pub fill_scalar : ℕ → ℕ → List ℕ
fill_scalar start_val zero = []
fill_scalar start_val (suc count) =
    (start_val + 1) % 2 ^ 32 ∷ fill_scalar ((start_val + 1) % 2 ^ 32) count

-- Four lanes of 32 bits, and the vector loop over `count` of them.
pub record Quad : Type 0 where
  pub a : ℕ
  pub b : ℕ
  pub c : ℕ
  pub d : ℕ

abbrev pub add_step : Quad → Quad
add_step q = record {
  a = (q.a + 4) % 2 ^ 32;
  b = (q.b + 4) % 2 ^ 32;
  c = (q.c + 4) % 2 ^ 32;
  d = (q.d + 4) % 2 ^ 32;
}

unfoldable pub store_quads : Quad → ℕ → List ℕ
store_quads q zero = []
store_quads q (suc count) = q.a ∷ q.b ∷ q.c ∷ q.d ∷ store_quads (add_step q) count

unfoldable pub fill_vector : ℕ → ℕ → List ℕ
unfolding store_quads
fill_vector start_val count =
    store_quads
      (record {
        a = (1 + start_val) % 2 ^ 32;
        b = (2 + start_val) % 2 ^ 32;
        c = (3 + start_val) % 2 ^ 32;
        d = (4 + start_val) % 2 ^ 32;
      })
      count
