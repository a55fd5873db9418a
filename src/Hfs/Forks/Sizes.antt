-- ===== src/Hfs/Forks/Sizes.antt =====
-- The sizes of impl/hfplus.h that its static assertions and the layout of the volume header count on.
use fsview.Base.{◌*◌, ◌≡◌, refl, arith, [], ◌∷◌, length, length-append}
use fsview.Hfs.Forks.{
  descriptor_bytes, HfsPlusExtentRecord, extent_record_bytes, HfsPlusForkData, fork_bytes, HasEight,
}

pub length-extent_record_bytes :
    (extents : HfsPlusExtentRecord) → length (extent_record_bytes extents) ≡ 8 * length extents
length-extent_record_bytes [] = refl
length-extent_record_bytes (d ∷ extents) = omega (
  arith,
  length-append (descriptor_bytes d) (extent_record_bytes extents),
  length-extent_record_bytes extents,
)

pub length-fork_bytes : (fork : HfsPlusForkData) → HasEight fork → length (fork_bytes fork) ≡ 80
unfolding HasEight
length-fork_bytes fork h = omega (arith, length-extent_record_bytes fork.extents, h)
