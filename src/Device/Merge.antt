-- ===== src/Device/Merge.antt =====
-- Geometry::MergeExtents: what merging keeps, and what it adds.
use fsview.Base.{
  ◌^◌, leb, true, false, some, ℕ, ◌+◌, ◌≤◌, ◌<◌, ◌≡◌, ◌↔◌, ◌⊎◌, inl, inr, refl, ap, ◌∙◌, [], ◌∷◌,
  arith, le_or_lt,
}
use fsview.Base.Words.{sadd64_small}
use fsview.Device.{Territory, absorb, merge_extents}

-- Ranges that start at `b` or later are not empty, and each ends before the next begins or where
-- it begins.
abbrev pub OrderedFrom : ℕ → Territory → Type 0
OrderedFrom b [] = Unit
OrderedFrom b ((first, last) ∷ rest) = (b ≤ first) × (first < last) × OrderedFrom last rest

-- The same with more than the tolerance between two ranges.
abbrev pub ApartFrom : ℕ → ℕ → Territory → Type 0
ApartFrom tol b [] = Unit
ApartFrom tol b ((first, last) ∷ rest) =
    (b ≤ first) × (first < last) × ApartFrom tol (last + tol + 1) rest

abbrev pub Covered : ℕ → Territory → Type 0
Covered x [] = ⊥
Covered x ((first, last) ∷ rest) = ((first ≤ x) × (x < last)) ⊎ Covered x rest

-- `x` lies between two successive ranges that are within the tolerance, after a range that ends at
-- `prev`.
abbrev pub BridgedAfter : ℕ → ℕ → ℕ → Territory → Type 0
BridgedAfter tol x prev [] = ⊥
BridgedAfter tol x prev ((first, last) ∷ rest) =
    ((prev ≤ x) × (x < first) × (first ≤ prev + tol)) ⊎ BridgedAfter tol x last rest

abbrev pub Bridged : ℕ → ℕ → Territory → Type 0
Bridged tol x [] = ⊥
Bridged tol x ((first, last) ∷ rest) = BridgedAfter tol x last rest

-- What the loops make of a chart where no sum overflows.
unfoldable pub joined : ℕ → ℕ → ℕ → Territory → Territory
joined tol first last [] = (first, last) ∷ []
joined tol first last ((first', last') ∷ rest) = elim (leb first' (last + tol)) [
  | true ↦ joined tol first last' rest
  | false ↦ (first, last) ∷ joined tol first' last' rest
]

unfoldable pub merged : ℕ → Territory → Territory
unfolding joined
merged tol [] = []
merged tol ((first, last) ∷ rest) = joined tol first last rest

-- No end of a range overflows with the tolerance.
abbrev pub InRange : ℕ → Territory → Type 0
InRange tol [] = Unit
InRange tol ((first, last) ∷ rest) = (first < 2 ^ 63) × (last + tol < 2 ^ 63) × InRange tol rest

absorb-joined :
    (tol first last : ℕ) (rest : Territory)
    → last + tol < 2 ^ 63
    → InRange tol rest
    → absorb tol first last rest ≡ some (joined tol first last rest)
unfolding absorb joined
absorb-joined tol first last [] h r = refl
absorb-joined tol first last ((first', last') ∷ rest) h (small, fits, r) = ground (
  arith,
  sadd64_small last tol h,
  absorb-joined tol first last' rest fits r,
  absorb-joined tol first' last' rest fits r,
)

pub merge_extents-merged :
    (tol : ℕ) (t : Territory) → InRange tol t → merge_extents tol t ≡ some (merged tol t)
unfolding merge_extents merged
merge_extents-merged tol [] r = refl
merge_extents-merged tol ((first, last) ∷ rest) (small, h, r) =
    absorb-joined tol first last rest h r

joined-ApartFrom :
    (tol b first last : ℕ) (rest : Territory)
    → b ≤ first
    → first < last
    → OrderedFrom last rest
    → ApartFrom tol b (joined tol first last rest)
unfolding joined
joined-ApartFrom tol b first last [] hb lt h = omega arith
joined-ApartFrom tol b first last ((first', last') ∷ rest) hb lt (h1, h2, h3) = ground (
  arith,
  joined-ApartFrom tol b first last' rest,
  joined-ApartFrom tol (last + tol + 1) first' last' rest,
)

-- Merged, a chart whose ranges are in order has ranges in order that are more than the
-- tolerance apart.
pub merged-ApartFrom : (tol : ℕ) (t : Territory) → OrderedFrom 0 t → ApartFrom tol 0 (merged tol t)
unfolding merged
merged-ApartFrom tol [] h = tt
merged-ApartFrom tol ((first, last) ∷ rest) (h1, h2, h3) =
    joined-ApartFrom tol 0 first last rest h1 h2 h3

joined_near :
    (tol first last first' last' : ℕ) (rest : Territory)
    → first' ≤ last + tol
    → joined tol first last ((first', last') ∷ rest) ≡ joined tol first last' rest
unfolding joined
joined_near tol first last first' last' rest h = ground arith

joined_far :
    (tol first last first' last' : ℕ) (rest : Territory)
    → last + tol < first'
    → joined tol first last ((first', last') ∷ rest) ≡ (first, last) ∷ joined tol first' last' rest
unfolding joined
joined_far tol first last first' last' rest h = ground arith

-- What the range in hand, with those still to come, is to cover.
abbrev Reach : ℕ → ℕ → ℕ → ℕ → Territory → Type 0
Reach tol x first last rest = Covered x ((first, last) ∷ rest) ⊎ BridgedAfter tol x last rest

joined-Covered_to :
    (tol x first last : ℕ) (rest : Territory)
    → first < last
    → OrderedFrom last rest
    → Covered x (joined tol first last rest)
    → Reach tol x first last rest
joined-Covered_to tol x first last [] lt h c = unfold joined in inl c
joined-Covered_to tol x first last ((first', last') ∷ rest) lt (h1, h2, h3) c =
    elim (le_or_lt first' (last + tol)) [
      | inl near ↦
          let c' : Covered x (joined tol first last' rest) =
            rw (joined_near tol first last first' last' rest near) at c in
          ground (arith, joined-Covered_to tol x first last' rest (omega arith) h3 c')
      | inr far ↦
          let c' : Covered x ((first, last) ∷ joined tol first' last' rest) =
            rw (joined_far tol first last first' last' rest far) at c in
          elim c' [
            | inl here ↦ inl (inl here)
            | inr there ↦ ground (arith, joined-Covered_to tol x first' last' rest h2 h3 there)
          ]
    ]

joined-Covered_from :
    (tol x first last : ℕ) (rest : Territory)
    → first < last
    → OrderedFrom last rest
    → Reach tol x first last rest
    → Covered x (joined tol first last rest)
joined-Covered_from tol x first last [] lt h c = unfold joined in ground arith
joined-Covered_from tol x first last ((first', last') ∷ rest) lt (h1, h2, h3) c =
    elim (le_or_lt first' (last + tol)) [
      | inl near ↦
          let c' : Reach tol x first last' rest = ground arith in
          rw (joined_near tol first last first' last' rest near)
            (joined-Covered_from tol x first last' rest (omega arith) h3 c')
      | inr far ↦
          let c' : ((first ≤ x) × (x < last)) ⊎ Reach tol x first' last' rest = ground arith in
          rw (joined_far tol first last first' last' rest far) (elim c' [
            | inl here ↦ inl here
            | inr there ↦ inr (joined-Covered_from tol x first' last' rest h2 h3 there)
          ])
    ]

pub merged-Covered :
    (tol x : ℕ) (t : Territory)
    → OrderedFrom 0 t
    → Covered x (merged tol t) ↔ (Covered x t ⊎ Bridged tol x t)
unfolding merged
merged-Covered tol x [] h = (inl, λ c. elim c [ inl d ↦ d | inr d ↦ d ])
merged-Covered tol x ((first, last) ∷ rest) (h1, h2, h3) =
    (joined-Covered_to tol x first last rest h2 h3, joined-Covered_from tol x first last rest h2 h3)

pub Apart-Ordered : (tol b c : ℕ) (t : Territory) → c ≤ b → ApartFrom tol b t → OrderedFrom c t
Apart-Ordered tol b c [] le h = tt
Apart-Ordered tol b c ((first, last) ∷ rest) le (h1, h2, h3) =
    (omega arith, h2, Apart-Ordered tol (last + tol + 1) last rest (omega arith) h3)

joined_apart :
    (tol first last : ℕ) (rest : Territory)
    → ApartFrom tol (last + tol + 1) rest
    → joined tol first last rest ≡ (first, last) ∷ rest
joined_apart tol first last [] h = unfold joined in refl
joined_apart tol first last ((first', last') ∷ rest) (h1, h2, h3) =
    joined_far tol first last first' last' rest (omega arith)
    ∙ ap (λ r. (first, last) ∷ r) (joined_apart tol first' last' rest h3)

merge_apart : (tol : ℕ) (t : Territory) → ApartFrom tol 0 t → merged tol t ≡ t
unfolding merged
merge_apart tol [] h = refl
merge_apart tol ((first, last) ∷ rest) (h1, h2, h3) = joined_apart tol first last rest h3

-- Merging a chart that is in order a second time changes nothing.
pub merged_idempotent :
    (tol : ℕ) (t : Territory) → OrderedFrom 0 t → merged tol (merged tol t) ≡ merged tol t
merged_idempotent tol t h = merge_apart tol (merged tol t) (merged-ApartFrom tol t h)

-- In a chart whose ranges are in order, and none of whose ends overflows with the tolerance, merging
-- succeeds and covers exactly what was covered, and the gaps that are no wider than the tolerance.
pub merge_extents-Covered :
    (tol x : ℕ) (t : Territory)
    → OrderedFrom 0 t
    → InRange tol t
    → (t' : Territory) × (merge_extents tol t ≡ some t')
      × (Covered x t' ↔ (Covered x t ⊎ Bridged tol x t))
merge_extents-Covered tol x t h r =
    (merged tol t, merge_extents-merged tol t r, merged-Covered tol x t h)

-- In a chart of two ranges, none of whose ends overflows with the tolerance, and of which the first
-- contains the second, merging makes one range that ends where the second one does: the bytes from there to
-- the end of the first range are in the chart, and not in the merged chart.
pub merge_extents_nested :
    (tol x first last first' last' : ℕ)
    → first ≤ first'
    → first' < last'
    → last' ≤ x
    → x < last
    → last + tol < 2 ^ 63
    → (t' : Territory) × (merge_extents tol ((first, last) ∷ (first', last') ∷ []) ≡ some t')
      × Covered x ((first, last) ∷ (first', last') ∷ [])
      × ¬ Covered x t'
unfolding merged
merge_extents_nested tol x first last first' last' h1 h2 h3 h4 fits =
    let t : Territory = (first, last) ∷ (first', last') ∷ [] in
    (
      merged tol t,
      merge_extents-merged tol t (omega arith, fits, (omega arith, omega arith, tt)),
      inl (omega arith),
      rw (joined_near tol first last first' last' [] (omega arith))
          (unfold joined in λ c. omega arith),
    )
