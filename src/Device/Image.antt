-- ===== src/Device/Image.antt =====
-- From a charted source byte to the byte of the burned image.
use fsview.Base.{ℕ, ◌+◌, ◌^◌, ◌≤◌, ◌<◌, ◌≡◌, ◌∙◌, Option, [], arith, some, All}
use fsview.Base.SortedMap.{lookup}
use fsview.Extent.{Extent, Media}
use fsview.Burner
use fsview.Burner.{Planner, BurnerOps}
use fsview.Burner.Image.{source_at-lt}
use fsview.Burner.Plan.{IsPlanned, Grown}
use fsview.Burner.Burned.{IsDevice, commit-holds}
use fsview.Device.{Territory, Geometry, Colonies, write_files, within_disk}
use fsview.Device.Merge.{Covered}
use fsview.Device.Files.{IsReady, footprint_all, write_files-Lands}

-- Let a burner append the bytes of the extents that it takes, as they are read from their media. Let
-- ready charts be laid out by writeFiles on a target that has room for them, and let the planner only
-- grow afterwards, over extents that the burner takes. Then commit() succeeds, and the place that
-- withinDisk answers for a byte that a chart covers, counted from the old end of the burner, holds
-- that byte of the source medium.
pub exported_byte :
    {S : Type 0} (ops : BurnerOps S) (read : Option ℕ → ℕ → ℕ) (size : S → ℕ)
    (byte_of : S → ℕ → Option ℕ) (takes : Extent → Type 0) (media : Media) (k : ℕ) (g : Geometry)
    (p : Planner) (s : S) (m surface x : ℕ) (t : Territory) (c : Colonies) (q later : Planner)
    → IsDevice ops read size byte_of takes
    → k < 63
    → IsReady g
    → IsPlanned p
    → p.offset + footprint_all (2 ^ k) g.plan ≤ 2 ^ 63
    → write_files (2 ^ k) g p ≡ some (c, q)
    → lookup ((media m).id) g.plan ≡ some t
    → lookup ((media m).id) g.d_map ≡ some surface
    → Covered x t
    → Grown q later
    → IsPlanned q
    → All takes later.extlist
    → (s' : S) × (place : ℕ) × (within_disk media
          (record { offset = x; length = 1; medium = some m })
          c
        ≡ some place)
      × (Burner.commit ops later s ≡ some (record later { extlist = [] }, s'))
      × (byte_of s' (size s + place) ≡ some (read (some surface) x))
exported_byte ops read size byte_of takes media k g p s m surface x t c q later d hk ready v room ok
      inplan indmap cov more vq h =
    let here = write_files-Lands media k g p hk ready v room m surface x ok inplan indmap cov in
    let inside : here.place < q.offset =
      omega (arith, vq.counted, source_at-lt q.extlist here.place here.holds) in
    let (s', run, holds) =
      commit-holds d later s here.place {m = some surface} {off = x} h
        (more.kept here.place inside ∙ here.holds) in
    (s', here.place, here.answer 1, run, holds)
