-- ===== src/Burner/Image.antt =====
-- What a list of extents lays out: the medium and the offset within it behind each byte.
use fsview.Base.{
  ℕ, ◌+◌, ◌-◌, ◌<◌, ◌≡◌, ap, Option, none, some, List, [], ◌∷◌, ◌++◌, arith, if◌then◌else◌, ltb,
  ◌==◌,
}
use fsview.Extent.{Extent}

-- The sum of the lengths.
unfoldable pub total : List Extent → ℕ
total [] = 0
total (x ∷ xs) = x.length + total xs

-- The source of the byte at a position: a pointer to a medium (`none` for zeros), and an offset.
unfoldable pub source_at : List Extent → ℕ → Option (Option ℕ × ℕ)
source_at [] pos = none
source_at (x ∷ xs) pos =
    if ltb pos x.length then some (x.medium, x.offset + pos) else source_at xs (pos - x.length)

pub total-append : (xs ys : List Extent) → total (xs ++ ys) ≡ total xs + total ys
unfolding total
total-append [] ys = omega arith
total-append (x ∷ xs) ys = omega (arith, total-append xs ys)

pub source_at-append_left :
    (xs ys : List Extent) (pos : ℕ) → pos < total xs → source_at (xs ++ ys) pos ≡ source_at xs pos
unfolding source_at total
source_at-append_left [] ys pos h = absurd (omega arith)
source_at-append_left (x ∷ xs) ys pos h =
    ground (arith, source_at-append_left xs ys (pos - x.length))

pub source_at-append_right :
    (xs ys : List Extent) (pos : ℕ) → source_at (xs ++ ys) (total xs + pos) ≡ source_at ys pos
unfolding source_at total
source_at-append_right [] ys pos = let e : 0 + pos ≡ pos = omega arith in ap (source_at ys) e
source_at-append_right (x ∷ xs) ys pos = ground (arith, source_at-append_right xs ys pos)

pub source_at-lt :
    (xs : List Extent) (pos : ℕ) {s : Option ℕ × ℕ} → source_at xs pos ≡ some s → pos < total xs
unfolding source_at total
source_at-lt [] pos e = cc
source_at-lt (x ∷ xs) pos {s} e = ground (arith, source_at-lt xs (pos - x.length) {s = s})

-- What Planner::append makes of its list: an empty extent is dropped.
abbrev pub pushed : Extent → List Extent → List Extent
pushed x xs = if x.length == 0 then xs else xs ++ (x ∷ [])

module _ (x : Extent) (xs : List Extent) where
  pub total-pushed : total (pushed x xs) ≡ total xs + x.length
  unfolding total
  total-pushed = ground (arith, total-append xs (x ∷ []))

  pub source_at-pushed_left :
      (pos : ℕ) → pos < total xs → source_at (pushed x xs) pos ≡ source_at xs pos
  source_at-pushed_left pos h = ground (arith, source_at-append_left xs (x ∷ []) pos)

  pub source_at-pushed_right :
      (i : ℕ)
      → i < x.length
      → source_at (pushed x xs) (total xs + i) ≡ some (x.medium, x.offset + i)
  unfolding source_at
  source_at-pushed_right i h = ground (arith, source_at-append_right xs (x ∷ []) i)
