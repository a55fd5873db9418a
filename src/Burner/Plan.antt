-- ===== src/Burner/Plan.antt =====
-- The planner: where appended extents land, alignment, and what makes it abort.
use mathlib.Core.Path.{subst}
use fsview.Base.{ℕ, ◌+◌, ◌^◌, ◌≤◌, ◌<◌, ◌≡◌, ◌∙◌, refl, sym, some, arith}
use fsview.Extent.{Extent}
use fsview.Burner.{Planner, append}
use fsview.Burner.Image.{
  total, source_at, total-pushed, source_at-pushed_left, source_at-pushed_right, pushed,
}

-- The offset is the sum of the planned lengths, and no 64-bit signed value.
pub record IsPlanned (p : Planner) : Type 0 where
  pub counted : p.offset ≡ total p.extlist
  pub small : p.offset < 2 ^ 63

-- How a planner has grown: what it holds is kept, and the offset has gone up.
pub record Grown (p q : Planner) : Type 0 where
  pub kept : (pos : ℕ) → pos < p.offset → source_at q.extlist pos ≡ source_at p.extlist pos
  pub up : p.offset ≤ q.offset

pub Grown-refl : (p : Planner) → Grown p p
Grown-refl p = record { kept = λ pos h. refl; up = omega arith }

pub Grown-trans : {p q r : Planner} → Grown p q → Grown q r → Grown p r
Grown-trans {p} {q} {r} g h = record {
  kept = λ pos lt. h.kept pos (omega (arith, g.up)) ∙ g.kept pos lt;
  up = omega (arith, g.up, h.up);
}

-- The planner after a successful append.
abbrev planned : Extent → Planner → Planner
planned x p = record p { extlist = pushed x p.extlist; offset = p.offset + x.length }

-- Where the append is within range.
abbrev pub Fits : Extent → Planner → Type 0
Fits x p = (x.length < 2 ^ 63) × (p.offset + x.length < 2 ^ 63)

append_inv :
    (x : Extent) (p : Planner) {r : ℕ × Planner}
    → append x p ≡ some r
    → Fits x p × (r ≡ (p.offset, planned x p))
unfolding append
append_inv x p e = ground arith

pub append-Fits : (x : Extent) (p : Planner) → Fits x p → append x p ≡ some (p.offset, planned x p)
unfolding append
append-Fits x p h = ground arith

module _ (x : Extent) {p : Planner} (v : IsPlanned p) where
  planned-IsPlanned : p.offset + x.length < 2 ^ 63 → IsPlanned (planned x p)
  planned-IsPlanned h = record {
    counted = omega (arith, v.counted, total-pushed x p.extlist);
    small = h;
  }

  planned-Grown : Grown p (planned x p)
  planned-Grown = record {
    kept = λ pos h. source_at-pushed_left x p.extlist pos (omega (arith, v.counted));
    up = omega arith;
  }

  planned-source :
      (i : ℕ)
      → i < x.length
      → source_at (pushed x p.extlist) (p.offset + i) ≡ some (x.medium, x.offset + i)
  planned-source i h = rw v.counted (source_at-pushed_right x p.extlist i h)

-- What a successful append of `x` to `p` establishes of its answer and the planner after it.
pub record Appended (x : Extent) (p : Planner) (r : ℕ × Planner) : Type 0 where
  pub valid : IsPlanned r.1
  pub grown : Grown p r.1
  pub placed : r.0 ≡ p.offset
  pub advanced : r.1.offset ≡ p.offset + x.length
  pub same_burner : r.1.burner ≡ p.burner
  pub same_client : r.1.client_sz ≡ p.client_sz
  pub laid :
      (i : ℕ) → i < x.length → source_at (r.1.extlist) (r.0 + i) ≡ some (x.medium, x.offset + i)

pub append_lem :
    (x : Extent) {p : Planner} {r : ℕ × Planner}
    → IsPlanned p
    → append x p ≡ some r
    → Appended x p r
append_lem x {p} {r} v e =
    let (fits, same) = append_inv x p e in
    subst (Appended x p) (sym same) (record {
      valid = planned-IsPlanned x v fits.1;
      grown = planned-Grown x v;
      placed = refl;
      advanced = refl;
      same_burner = refl;
      same_client = refl;
      laid = planned-source x v;
    })

-- On a planner whose offset is the sum of its lengths, a successful append keeps this invariant,
-- answers the offset before it, moves the offset by the length of the extent, and lays each byte
-- of the extent out at its distance from the answered offset.
pub append_places :
    (x : Extent) (i : ℕ) {p : Planner} {r : ℕ × Planner}
    → IsPlanned p
    → append x p ≡ some r
    → i < x.length
    → IsPlanned r.1
      × (r.0 ≡ p.offset)
      × (r.1.offset ≡ p.offset + x.length)
      × (source_at (r.1.extlist) (r.0 + i) ≡ some (x.medium, x.offset + i))
append_places x i v e lt =
    let done = append_lem x v e in (done.valid, done.placed, done.advanced, done.laid i lt)

-- On such a planner a successful append leaves every byte that was planned before in its place.
pub append_keeps :
    (x : Extent) (pos : ℕ) {p : Planner} {r : ℕ × Planner}
    → IsPlanned p
    → append x p ≡ some r
    → pos < p.offset
    → source_at (r.1.extlist) pos ≡ source_at p.extlist pos
append_keeps x pos v e lt = (append_lem x v e).grown.kept pos lt
