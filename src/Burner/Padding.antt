-- ===== src/Burner/Padding.antt =====
-- IAppend::padTo and Planner::wrapToGo: alignment, and totality below the size limit.
use fsview.Base.{ℕ, ◌+◌, ◌-◌, ◌%◌, ◌^◌, ◌≤◌, ◌<◌, ◌≡◌, refl, ap, some, arith}
use fsview.Extent.{Extent, Media, padding, zero_extent}
use fsview.Extent.Rounding.{padding_aligns}
use fsview.Burner.{Planner, append, pad_to, wrap_to_go, block_size}
use fsview.Burner.Image.{source_at}
use fsview.Burner.Plan.{IsPlanned, Grown, append_lem, append-Fits}

-- What a successful padTo( 2 ^ k ) establishes.
pub record Padded (k : ℕ) (p : Planner) (q : Planner) : Type 0 where
  pub valid : IsPlanned q
  pub grown : Grown p q
  pub aligned : q.offset % 2 ^ k ≡ 0
  pub near : q.offset < p.offset + 2 ^ k
  pub same_burner : q.burner ≡ p.burner
  pub same_client : q.client_sz ≡ p.client_sz

pub pad_to_lem :
    (k : ℕ) {p : Planner}
    → k < 63
    → IsPlanned p
    → p.offset + 2 ^ k ≤ 2 ^ 63
    → (q : Planner) × (pad_to (2 ^ k) p ≡ some (padding p.offset (2 ^ k), q)) × Padded k p q
unfolding pad_to zero_extent
pad_to_lem k {p} hk v h =
    let (aligned, near) = padding_aligns k p.offset hk v.small in
    let pad : Extent = zero_extent (padding p.offset (2 ^ k)) in
    let ok : append pad p ≡ some (p.offset, _) = append-Fits pad p (omega arith, omega arith) in
    let done = append_lem pad v ok in
    (
      _,
      rw ok,
      record {
        valid = done.valid;
        grown = done.grown;
        aligned = aligned;
        near = omega arith;
        same_burner = refl;
        same_client = refl;
      },
    )

-- For a block of 2 ^ k bytes, k below 63, and a planner in order at least a block below 2 ^ 63,
-- padTo succeeds, answers the padding, leaves the planner at the next block boundary, which is
-- less than a block away, and keeps every byte planned before in its place.
pub pad_to_aligns :
    (k pos : ℕ) {p : Planner}
    → k < 63
    → IsPlanned p
    → p.offset + 2 ^ k ≤ 2 ^ 63
    → pos < p.offset
    → (q : Planner) × (pad_to (2 ^ k) p ≡ some (padding p.offset (2 ^ k), q))
      × IsPlanned q
      × (q.offset % 2 ^ k ≡ 0)
      × (p.offset ≤ q.offset)
      × (q.offset < p.offset + 2 ^ k)
      × (source_at q.extlist pos ≡ source_at p.extlist pos)
pad_to_aligns k pos hk v room lt =
    let (q, e, padded) = pad_to_lem k hk v room in
    (q, e, padded.valid, padded.aligned, padded.grown.up, padded.near, padded.grown.kept pos lt)

-- For a planner in order whose block size is 2 ^ k, k below 63, at least a block below 2 ^ 63, and
-- a `since` that is not beyond its offset, wrapToGo succeeds and answers the extent of the burner
-- that runs from `since` to the new offset, which is the next boundary of that block size.
pub wrap_to_go_lem :
    (media : Media) (k since : ℕ) {p : Planner}
    → k < 63
    → block_size media p ≡ 2 ^ k
    → IsPlanned p
    → since ≤ p.offset
    → p.offset + 2 ^ k ≤ 2 ^ 63
    → (x : Extent) × (q : Planner) × (wrap_to_go media since p ≡ some (x, q))
      × (q.offset % 2 ^ k ≡ 0)
      × (q.offset < p.offset + 2 ^ k)
      × (x.offset ≡ since)
      × (since + x.length ≡ q.offset)
      × (x.medium ≡ some p.burner)
unfolding wrap_to_go
wrap_to_go_lem media k since {p} hk size v le h =
    let (q, e, padded) = pad_to_lem k hk v h in
    (
      record { offset = since; length = q.offset - since; medium = some q.burner },
      q,
      rw (size, e),
      padded.aligned,
      padded.near,
      refl,
      omega (arith, padded.grown.up),
      ap some padded.same_burner,
    )
