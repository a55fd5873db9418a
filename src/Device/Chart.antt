-- ===== src/Device/Chart.antt =====
-- Geometry::chart and Geometry::optimize: what they keep.
use mathlib.Core.Path.{subst}
use fsview.Base.{
  ◌^◌, ◌<◌, ℕ, Bool-cases, ◌+◌, ◌≡◌, ◌≢◌, refl, sym, some, none, Option, List, [], ◌∷◌, arith,
  if◌then◌else◌, ◌==◌, eq_or_ne, inl, inr,
}
use fsview.Base.SortedMap.{
  insert, lookup, lookup_or, IsSorted, SortedAbove, lookup-insert, insert-IsSorted,
}
use fsview.Extent.{Extent, Media}
use fsview.Device.{Territory, Geometry, chart_one, remember, optimize_plan, optimize, merge_extents}
use fsview.Base.Words.{sadd64_small}
use fsview.Device.Merge.{
  OrderedFrom, Covered, merged, merge_extents-merged, InRange, merged-ApartFrom, merged-Covered,
  Apart-Ordered,
}
use fsview.Device.Files.{IsCharted, IsReady}

remember-known :
    (id m : ℕ) (known : List (ℕ × ℕ)) (o : Option ℕ)
    → lookup id known ≡ o
    → lookup id (remember id m o known) ≢ none
remember-known id m known none e = λ h. ground (arith, lookup-insert id id m known)
remember-known id m known (some old) e = λ h. cc

-- Charting an extent of the medium `m` whose end does not overflow where the charts are in ascending order of their ids
-- succeeds. The chart under the id of the medium gains the end of the extent under its start,
-- every other chart is kept, a pointer stands under the id of the medium, and the charts stay in
-- order.
pub chart_one_lem :
    (media : Media) (x : Extent) (g : Geometry) (m i : ℕ)
    → x.medium ≡ some m
    → x.offset + x.length < 2 ^ 63
    → IsSorted g.plan
    → (g' : Geometry) × (chart_one media x g ≡ some g')
      × IsSorted g'.plan
      × (lookup i g'.plan ≡ (
          if i == (media m).id
          then some (insert x.offset (x.offset + x.length) (lookup_or ((media m).id) [] g.plan))
          else lookup i g.plan))
      × (lookup ((media m).id) g'.d_map ≢ none)
unfolding chart_one
chart_one_lem media x g m i e small h =
    let id : ℕ = (media m).id in
    let g' : Geometry = record g {
      d_map = remember id m (lookup id g.d_map) g.d_map;
      plan = insert id (insert x.offset (x.offset + x.length) (lookup_or id [] g.plan)) g.plan;
    } in
    (
      g',
      rw (e, sadd64_small x.offset x.length small) refl,
      insert-IsSorted id _ g.plan h,
      lookup-insert id i _ g.plan,
      remember-known id m g.d_map (lookup id g.d_map) refl,
    )

-- What optimizing the charts of media in `d_map` gives.
record Optimized (media : Media) (gap : ℕ) (d_map : List (ℕ × ℕ)) (plan : List (ℕ × Territory))
    : Type 0 where
  plan' : List (ℕ × Territory)
  ok : optimize_plan media gap d_map plan ≡ some plan'
  above : (b : ℕ) → SortedAbove b plan → SortedAbove b plan'
  sorted : IsSorted plan → IsSorted plan'
  charted : IsCharted d_map plan'
  covers :
      (id x : ℕ) {t : Territory}
      → lookup id plan ≡ some t
      → Covered x t
      → (t' : Territory) × (lookup id plan' ≡ some t') × Covered x t'

merged_if : Media → ℕ → ℕ → Territory → Territory
merged_if media gap m t = if (media m).is_aligned then merged gap t else t

merged_if-OrderedFrom :
    (media : Media) (gap m : ℕ) (t : Territory)
    → OrderedFrom 0 t
    → OrderedFrom 0 (merged_if media gap m t)
unfolding merged_if
merged_if-OrderedFrom media gap m t h = elim (Bool-cases ((media m).is_aligned)) [
  | inl e ↦ rw e (Apart-Ordered gap 0 0 _ (omega arith) (merged-ApartFrom gap t h))
  | inr e ↦ rw e h
]

merged_if-Covered :
    (media : Media) (gap m x : ℕ) (t : Territory)
    → OrderedFrom 0 t
    → Covered x t
    → Covered x (merged_if media gap m t)
unfolding merged_if
merged_if-Covered media gap m x t h c = elim (Bool-cases ((media m).is_aligned)) [
  | inl e ↦ rw e ((merged-Covered gap x t h).1 (inl c))
  | inr e ↦ rw e c
]

merged_if_run :
    (media : Media) (gap m : ℕ) (t : Territory)
    → InRange gap t
    → (if (media m).is_aligned then merge_extents gap t else some t)
      ≡ some (merged_if media gap m t)
unfolding merged_if
merged_if_run media gap m t r = elim (Bool-cases ((media m).is_aligned)) [
  | inl e ↦ rw e (merge_extents-merged gap t r)
  | inr e ↦ rw e refl
]

-- No end of a chart overflows with the gap.
abbrev pub EachInRange : ℕ → List (ℕ × Territory) → Type 0
EachInRange gap [] = Unit
EachInRange gap ((id, t) ∷ rest) = InRange gap t × EachInRange gap rest

Optimized-cons :
    (media : Media) (gap id m : ℕ) (t : Territory) (d_map : List (ℕ × ℕ))
    (rest : List (ℕ × Territory))
    → OrderedFrom 0 t
    → lookup id d_map ≡ some m
    → InRange gap t
    → Optimized media gap d_map rest
    → Optimized media gap d_map ((id, t) ∷ rest)
Optimized-cons media gap id m t d_map rest ordered known r o =
    let t' : Territory = merged_if media gap m t in
    record {
      plan' = (id, t') ∷ o.plan';
      ok = let run = merged_if_run media gap m t r in unfold optimize_plan in rw (known, run, o.ok);
      above = λ b s. (s.0, o.above id (s.1));
      sorted = λ s. o.above id s;
      charted = (merged_if-OrderedFrom media gap m t ordered, (m, known), o.charted);
      covers = λ i x {t = t0} e c. elim (eq_or_ne i id) [
        | inl here ↦
            let same : t ≡ t0 = unfold lookup in ground arith in
            (
              t',
              unfold lookup in ground arith,
              merged_if-Covered media gap m x t ordered (subst (Covered x) (sym same) c),
            )
        | inr there ↦
            let older : lookup i rest ≡ some t0 = unfold lookup in ground arith in
            let (t1, e1, c1) = o.covers i x older c in (t1, unfold lookup in ground arith, c1)
      ];
    }

Optimized_lem :
    (media : Media) (gap : ℕ) (d_map : List (ℕ × ℕ)) (plan : List (ℕ × Territory))
    → IsCharted d_map plan
    → EachInRange gap plan
    → Optimized media gap d_map plan
Optimized_lem media gap d_map [] h r = record {
  plan' = [];
  ok = unfold optimize_plan in refl;
  above = λ b h. tt;
  sorted = λ h. tt;
  charted = tt;
  covers = λ id x e c. unfold lookup in cc;
}
Optimized_lem media gap d_map ((id, t) ∷ rest) (ordered, (m, known), h) (r, rs) =
    Optimized-cons media gap id m t d_map rest ordered known r
      (Optimized_lem media gap d_map rest h rs)

-- Optimizing charts in order of known media, none of whose ends overflows with the gap, succeeds, leaves them in order under the same media, and
-- a byte that a chart covers is covered afterwards by the chart of the same medium.
pub optimize_lem :
    (media : Media) (g : Geometry) (id x : ℕ) {t : Territory}
    → IsReady g
    → EachInRange g.gap g.plan
    → lookup id g.plan ≡ some t
    → Covered x t
    → (g' : Geometry) × (t' : Territory) × (optimize media g ≡ some g')
      × IsReady g'
      × (g'.d_map ≡ g.d_map)
      × (lookup id g'.plan ≡ some t')
      × Covered x t'
unfolding optimize
optimize_lem media g id x ready r e c =
    let o = Optimized_lem media g.gap g.d_map g.plan ready.charted r in
    let (t', found, covered) = o.covers id x e c in
    (
      record g { plan = o.plan' },
      t',
      rw (o.ok),
      record { sorted = o.sorted ready.sorted; charted = o.charted },
      refl,
      found,
      covered,
    )
