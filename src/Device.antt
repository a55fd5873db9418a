-- ===== src/Device.antt =====
-- impl/device.h and impl/device.cpp: charts of source extents, their merging, and the translation
-- of source positions to the target. An off64_t is a word of two's complement; those that are keys of
-- a chart are not negative. `none` is a call of abort(), an uncaught exception of at(), or undefined
-- behaviour, of which signed overflow is one.
pub mod Chart
pub mod Merge
pub mod Place
pub mod Write
pub mod Files
pub mod Image
pub mod Granularity
mod Tests
use fsview.Base.{
  ℕ, zero, suc, ◌+◌, ◌-◌, ◌*◌, ◌/◌, ◌%◌, ◌^◌, Bool, true, false, Option, none, some, List, [], ◌∷◌,
  bit_or, if◌then◌else◌, ◌==◌, ltb, leb, ◌>>=◌,
}
use fsview.Base.Words.{lnot64, sub64, sadd64, ssub64, sle64}
use fsview.Base.SortedMap.{insert, lookup, lookup_or}
use fsview.Extent.{Extent, Medium, Media, mapper_bs}
use fsview.Burner
use fsview.Burner.{Planner}

-- Extent start to extent end, in ascending order.
abbrev pub Territory : Type 0
Territory = List (ℕ × ℕ)

-- `d_map` holds pointers to media by their id.
pub record Geometry : Type 0 where
  pub gap : ℕ
  pub d_map : List (ℕ × ℕ)
  pub plan : List (ℕ × Territory)
  pub mask : ℕ

abbrev pub no_geometry : Geometry
no_geometry = record { gap = 0; d_map = []; plan = []; mask = 0 }

abbrev pub remember : ℕ → ℕ → Option ℕ → List (ℕ × ℕ) → List (ℕ × ℕ)
remember id m none known = insert id m known
remember id m (some old) known = known

-- Geometry::chart( const Extent & )
unfoldable pub chart_one : Media → Extent → Geometry → Option Geometry
chart_one media x g = do
  m ← x.medium
  last ← sadd64 x.offset x.length
  let id = (media m).id
  some (record g {
    d_map = remember id m (lookup id g.d_map) g.d_map;
    plan = insert id (insert x.offset last (lookup_or id [] g.plan)) g.plan;
  })

-- Geometry::chart( const ExtentList & ): the mask takes every offset, and every length but the last.
unfoldable pub chart : Media → List Extent → Geometry → Option Geometry
chart media [] g = some g
chart media (x ∷ []) g = do
  g' ← chart_one media x g
  some (record g' { mask = bit_or g'.mask x.offset })
chart media (x ∷ y ∷ xs) g = do
  g' ← chart_one media x g
  chart media (y ∷ xs) (record g' { mask = bit_or (bit_or g'.mask x.offset) x.length })

-- The inner loop of MergeExtents at the extent that ends at `last`: `next` is absorbed while it
-- starts within the tolerance.
unfoldable pub absorb : ℕ → ℕ → ℕ → Territory → Option Territory
absorb tolerance first last [] = some ((first, last) ∷ [])
absorb tolerance first last ((first', last') ∷ rest) = do
  reach ← sadd64 last tolerance
  elim (sle64 first' reach) [
    | true ↦ absorb tolerance first last' rest
    | false ↦ absorb tolerance first' last' rest >>= (λ more. some ((first, last) ∷ more))
  ]

unfoldable pub merge_extents : ℕ → Territory → Option Territory
unfolding absorb
merge_extents tolerance [] = some []
merge_extents tolerance ((first, last) ∷ rest) = absorb tolerance first last rest

unfoldable pub break_by_lanes : ℕ → Territory → List (ℕ × ℕ) → List (ℕ × ℕ)
break_by_lanes cluster_sz [] dist = dist
break_by_lanes cluster_sz ((first, last) ∷ rest) dist =
    break_by_lanes cluster_sz rest
      (insert (first % cluster_sz) (lookup_or (first % cluster_sz) 0 dist + 1) dist)

-- `total + range.second - range.first` from left to right.
unfoldable pub total_length_from : ℕ → Territory → Option ℕ
total_length_from total [] = some total
total_length_from total ((first, last) ∷ rest) = do
  upper ← sadd64 total last
  total' ← ssub64 upper first
  total_length_from total' rest

unfoldable pub total_length : Territory → Option ℕ
unfolding total_length_from
total_length = total_length_from 0

unfoldable pub total_length_all : List (ℕ × Territory) → ℕ → Option ℕ
unfolding total_length
total_length_all [] total = some total
total_length_all ((id, t) ∷ rest) total = do
  length ← total_length t
  total' ← sadd64 total length
  total_length_all rest total'

-- Shifts of a 64-bit mask.
abbrev pub shl64 : ℕ → ℕ → ℕ
shl64 a n = a * 2 ^ n % 2 ^ 64

unfoldable pub as_lower_bound : ℕ → ℕ
as_lower_bound m0 =
    let m1 : ℕ = bit_or m0 (shl64 m0 1) in
    let m2 : ℕ = bit_or m1 (shl64 m1 2) in
    let m3 : ℕ = bit_or m2 (shl64 m2 4) in
    let m4 : ℕ = bit_or m3 (shl64 m3 8) in
    let m5 : ℕ = bit_or m4 (shl64 m4 16) in bit_or m5 (shl64 m5 32)

-- The loop of granularity over the media: false makes it abort.
unfoldable pub blocks_mappable : Media → ℕ → List (ℕ × ℕ) → Bool
blocks_mappable media mapper_block [] = true
blocks_mappable media mapper_block ((id, m) ∷ rest) =
    if (media m).is_aligned
    then (if ltb ((media m).block_size) mapper_block
        then false
        else blocks_mappable media mapper_block rest)
    else blocks_mappable media mapper_block rest

unfoldable pub granularity : Media → ℕ → Geometry → Option ℕ
unfolding as_lower_bound blocks_mappable
granularity media mapper_block g =
    if blocks_mappable media mapper_block g.d_map
    then some (lnot64 (shl64 (as_lower_bound g.mask) 1))
    else none

-- Geometry::optimize, without what it prints and the sums that are only printed: the charts of media that are not aligned are left.
unfoldable pub optimize_plan :
    Media → ℕ → List (ℕ × ℕ) → List (ℕ × Territory) → Option (List (ℕ × Territory))
unfolding merge_extents
optimize_plan media gap d_map [] = some []
optimize_plan media gap d_map ((id, t) ∷ rest) = do
  m ← lookup id d_map
  t' ← if (media m).is_aligned then merge_extents gap t else some t
  done ← optimize_plan media gap d_map rest
  some ((id, t') ∷ done)

unfoldable pub optimize : Media → Geometry → Option Geometry
unfolding optimize_plan
optimize media g = do
  plan' ← optimize_plan media g.gap g.d_map g.plan
  some (record g { plan = plan' })

pub record Colonies : Type 0 where
  pub area_offset : ℕ
  pub plan : List (ℕ × List (ℕ × ℕ))

-- The inner loop of writeFiles: each range becomes an extent of the surface, padded to a block.
unfoldable pub write_ranges :
    ℕ → ℕ → Territory → List (ℕ × ℕ) → Planner → Option (List (ℕ × ℕ) × Planner)
write_ranges blk_sz surface [] disk2cd out = some (disk2cd, out)
write_ranges blk_sz surface ((first, last) ∷ rest) disk2cd out = do
  (placed, out1) ←
      Burner.append (record { offset = first; length = sub64 last first; medium = some surface })
        out
  (pad, out2) ← Burner.pad_to blk_sz out1
  write_ranges blk_sz surface rest (insert first placed disk2cd) out2

unfoldable pub write_plan :
    ℕ → List (ℕ × ℕ) → List (ℕ × Territory) → Colonies → Planner → Option (Colonies × Planner)
unfolding write_ranges
write_plan blk_sz d_map [] c out = some (c, out)
write_plan blk_sz d_map ((id, t) ∷ rest) c out = do
  surface ← lookup id d_map
  (disk2cd, out') ← write_ranges blk_sz surface t (lookup_or id [] c.plan) out
  write_plan blk_sz d_map rest (record c { plan = insert id disk2cd c.plan }) out'

unfoldable pub write_files : ℕ → Geometry → Planner → Option (Colonies × Planner)
unfolding write_plan
write_files blk_sz g out =
    write_plan blk_sz g.d_map g.plan (record { area_offset = out.offset; plan = [] }) out

-- `--upper_bound( x )`: the last entry whose key is at most `x`, `none` where there is none.
unfoldable pub last_le : ℕ → List (ℕ × ℕ) → Option (ℕ × ℕ)
last_le x [] = none
last_le x ((k, v) ∷ m) =
    if leb k x then elim (last_le x m) [ none ↦ some (k, v) | some r ↦ some r ] else none

unfoldable pub within_disk : Media → Extent → Colonies → Option ℕ
unfolding last_le
within_disk media x c = do
  m ← x.medium
  src2trg ← lookup ((media m).id) c.plan
  (from, to) ← last_le x.offset src2trg
  sadd64 (x.offset - from) to

unfoldable pub within_area : Media → Extent → Colonies → Option ℕ
unfolding within_disk
within_area media x c = do disk ← within_disk media x c; some (sub64 disk c.area_offset)
