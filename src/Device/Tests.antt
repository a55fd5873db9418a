-- ===== src/Device/Tests.antt =====
-- Runs over one small disk, and the theorems at concrete inputs.
use fsview.Base.{
  zero, suc, ap, ◌∙◌, ◌<◌, ◌++◌, Option, length, length-append, get_elem?-append_left,
  get_elem?-append_right, ℕ, ◌+◌, ◌≡◌, ◌↔◌, ◌⊎◌, inl, inr, get_elem?, refl, List, [], ◌∷◌, some,
  none, true, arith,
}
use fsview.Base.TestBit.{test_bit}
use fsview.Base.SortedMap.{insert, lookup, lookup_or}
use fsview.Extent.{Extent, Medium, Media, round_up, padding, zero_extent}
use fsview.Burner.Burned.{IsDevice}
use fsview.Burner.{BurnerOps, Planner, new_planner, commit, append, pad_to}
use fsview.Burner.Image.{total}
use fsview.Burner.Plan.{IsPlanned, Grown, Grown-refl}
use fsview.Device.{
  Territory, Geometry, Colonies, chart_one, chart, optimize, merge_extents, granularity,
  write_files, blocks_mappable, within_disk, write_plan, write_ranges,
}
use fsview.Device.Merge.{Covered, Bridged, InRange, merge_extents-Covered, merge_extents_nested}
use fsview.Base.Words.{sadd64}
use fsview.Device.Write.{footprint}
use fsview.Device.Files.{IsReady, Lands, footprint_all, write_files_total, write_files-Lands}
use fsview.Device.Chart.{optimize_lem}
use fsview.Device.Image.{exported_byte}
use fsview.Device.Granularity.{Aligned, granularity_lem}

-- One disk, which is not in memory, under every pointer.
abbrev disk : Medium
disk = record {
  contents = none;
  block_device = 259;
  is_direct_device = true;
  is_aligned = true;
  id = 259;
  block_size = 512;
}

abbrev disks : Media
disks p = disk

abbrev two_ranges : Territory
two_ranges = (0, 2) ∷ (3, 5) ∷ []

merge_run : merge_extents 1 two_ranges ≡ some ((0, 5) ∷ [])
unfolding merge_extents sadd64
merge_run = refl

two_ranges-InRange : InRange 1 two_ranges
two_ranges-InRange = (omega arith, omega arith, (omega arith, omega arith, tt))

merge_extents-Covered_example :
    (t' : Territory) × (merge_extents 1 two_ranges ≡ some t')
    × (Covered 2 t' ↔ (Covered 2 two_ranges ⊎ Bridged 1 2 two_ranges))
merge_extents-Covered_example =
    merge_extents-Covered 1 2 two_ranges (omega arith) two_ranges-InRange

merge_extents_nested_example :
    (t' : Territory) × (merge_extents 0 ((0, 9) ∷ (2, 5) ∷ []) ≡ some t')
    × Covered 7 ((0, 9) ∷ (2, 5) ∷ [])
    × ¬ Covered 7 t'
merge_extents_nested_example =
    merge_extents_nested 0 7 0 9 2 5 (omega arith) (omega arith) (omega arith) (omega arith)
      (omega arith)

abbrev charted : Geometry
charted = record { gap = 0; d_map = (259, 1) ∷ []; plan = (259, two_ranges) ∷ []; mask = 0 }

charted-IsReady : IsReady charted
unfolding lookup
charted-IsReady = record { sorted = tt; charted = (omega arith, (1, refl), tt) }

new_planner-IsPlanned : IsPlanned (new_planner 3)
unfolding total
new_planner-IsPlanned = omega arith

write_files_total_example :
    (c : Colonies) × (q : Planner) × (write_files 4 charted (new_planner 3) ≡ some (c, q))
    × IsPlanned q
    × Grown (new_planner 3) q
    × (c.area_offset ≡ 0)
unfolding footprint_all footprint
write_files_total_example =
    write_files_total disks 2 charted (new_planner 3) (omega arith) charted-IsReady
      new_planner-IsPlanned (omega arith)

-- The bytes from the surface 1 that a planner is to hold, and padding.
abbrev part : ℕ → Extent
part first = record { offset = first; length = 2; medium = some 1 }

abbrev gap_of : ℕ → Extent
gap_of len = record { offset = 0; length = len; medium = none }

abbrev exported : Planner
exported = record {
  burner = 3;
  extlist = part 0 ∷ gap_of 2 ∷ part 3 ∷ gap_of 2 ∷ [];
  client_sz = 1;
  offset = 8;
}

abbrev colonies : Colonies
colonies = record { area_offset = 0; plan = (259, (0, 0) ∷ (3, 4) ∷ []) ∷ [] }

write_files_run : write_files 4 charted (new_planner 3) ≡ some (colonies, exported)
unfolding write_files write_plan write_ranges lookup insert lookup_or append pad_to padding round_up
    zero_extent
write_files_run = refl

write_files-Lands_example : Lands disks 0 1 4 colonies exported
unfolding footprint_all footprint
write_files-Lands_example =
    write_files-Lands disks 2 charted (new_planner 3) (omega arith) charted-IsReady
      new_planner-IsPlanned (omega arith) 0 1 4 {t = two_ranges} write_files_run
      (unfold lookup in refl) (unfold lookup in refl) (inr (inl (omega arith)))

exported-IsPlanned : IsPlanned exported
unfolding total
exported-IsPlanned = omega arith

-- A burner into a list, and a disk that is read as its offsets.
abbrev listed : (ℕ → ℕ) → ℕ → List ℕ
listed f zero = []
listed f (suc n) = f 0 ∷ listed (λ i. f (i + 1)) n

length-listed : (f : ℕ → ℕ) (n : ℕ) → length (listed f n) ≡ n
length-listed f zero = refl
length-listed f (suc n) = ap suc (length-listed (λ i. f (i + 1)) n)

get_elem?-listed : (f : ℕ → ℕ) (n i : ℕ) → i < n → get_elem? (listed f n) i ≡ some (f i)
get_elem?-listed f zero i h = absurd (omega arith)
get_elem?-listed f (suc n) zero h = refl
get_elem?-listed f (suc n) (suc i) h =
    get_elem?-listed (λ i. f (i + 1)) n i (omega arith) ∙ ap (λ j. some (f j)) (omega arith)

abbrev byte_read : Option ℕ → ℕ → ℕ
byte_read none off = 0
byte_read (some m) off = off

abbrev list_ops : BurnerOps (List ℕ)
list_ops = record {
  reserve = λ n s. some s;
  burn = λ x s. some (s ++ listed (λ i. byte_read x.medium (x.offset + i)) x.length);
  finish = λ s. some s;
}

abbrev AnyExtent : Extent → Type 0
AnyExtent x = Unit

list_ops-IsDevice : IsDevice list_ops byte_read length get_elem? AnyExtent
list_ops-IsDevice = record {
  reserves = λ n s. (s, refl, refl, λ i. refl);
  burns = λ x s any.
      let f = λ (i : ℕ). byte_read x.medium (x.offset + i) in
      (
        s ++ listed f x.length,
        refl,
        length-append s (listed f x.length) ∙ ap (λ n. length s + n) (length-listed f x.length),
        λ i below. get_elem?-append_left s (listed f x.length) i below,
        λ i below.
            get_elem?-append_right s (listed f x.length) (length s + i) (omega arith)
            ∙ ap (get_elem? (listed f x.length)) (omega arith)
            ∙ get_elem?-listed f x.length i below,
      );
  finishes = λ s. (s, refl, refl, λ i. refl);
}

exported_byte_example :
    (s : List ℕ) × (place : ℕ) × (within_disk disks
        (record { offset = 4; length = 1; medium = some 0 })
        colonies
      ≡ some place)
    × (commit list_ops exported [] ≡ some (record exported { extlist = [] }, s))
    × (get_elem? s (0 + place) ≡ some 4)
unfolding footprint_all footprint
exported_byte_example =
    exported_byte list_ops byte_read length get_elem? AnyExtent disks 2 charted (new_planner 3) [] 0
      1 4 two_ranges colonies exported exported list_ops-IsDevice (omega arith) charted-IsReady
      new_planner-IsPlanned (omega arith) write_files_run (unfold lookup in refl)
      (unfold lookup in refl) (inr (inl (omega arith))) (Grown-refl exported) exported-IsPlanned
      (tt, (tt, (tt, (tt, tt))))

abbrev half_file : List Extent
half_file =
    record { offset = 4096; length = 8192; medium = some 1 }
    ∷ record { offset = 20480; length = 100; medium = some 1 }
    ∷ []

granularity_lem_example :
    (mask : ℕ) × (granularity disks 512 (record {
      gap = 0;
      d_map = (259, 1) ∷ [];
      plan = (259, (4096, 12288) ∷ (20480, 20580) ∷ []) ∷ [];
      mask = 28672;
    })
      ≡ some mask)
    × ((test_bit mask 12 ≡ 1) ↔ Aligned 4096 half_file)
unfolding chart chart_one blocks_mappable lookup insert lookup_or sadd64
granularity_lem_example = granularity_lem disks half_file 512 12 refl refl (omega arith)

optimize_lem_example :
    (g : Geometry) × (t : Territory) × (optimize disks charted ≡ some g)
    × IsReady g
    × (g.d_map ≡ (259, 1) ∷ [])
    × (lookup 259 g.plan ≡ some t)
    × Covered 4 t
optimize_lem_example =
    optimize_lem disks charted 259 4 {t = two_ranges} charted-IsReady
      ((omega arith, omega arith, (omega arith, omega arith, tt)), tt) (unfold lookup in refl)
      (inr (inl (omega arith)))
