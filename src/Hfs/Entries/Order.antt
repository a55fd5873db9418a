-- ===== src/Hfs/Entries/Order.antt =====
-- The orders on the keys of impl/hfplus.h, and the sizes of the catalog entries.
use fsview.Base.{◌≡◌, refl, arith, true, not, ◌||◌, length, length-append}
use fsview.Hfs.Forks.{HasEight, fork_bytes}
use fsview.Hfs.Forks.Sizes.{length-fork_bytes}
use fsview.Hfs.Entries.{
  HfsPlusExtentKey, same_extent_key, extent_key_below, HfsPlusCatalogFile, file_bytes,
  HfsPlusCatalogFolder, folder_bytes,
}

-- An extent key is below another one exactly when the two are not the same and the other one is not
-- below it.
pub extent_key_below_total :
    (a b : HfsPlusExtentKey)
    → extent_key_below a b ≡ not (same_extent_key a b || extent_key_below b a)
unfolding same_extent_key extent_key_below
extent_key_below_total a b = ground arith

pub extent_key_below_trans :
    (a b c : HfsPlusExtentKey)
    → extent_key_below a b ≡ true
    → extent_key_below b c ≡ true
    → extent_key_below a c ≡ true
unfolding extent_key_below
extent_key_below_trans a b c hab hbc = ground arith

pub length-folder_bytes : (folder : HfsPlusCatalogFolder) → length (folder_bytes folder) ≡ 88
unfolding folder_bytes
length-folder_bytes folder = refl

pub length-file_bytes :
    (file : HfsPlusCatalogFile)
    → HasEight file.data_fork
    → HasEight file.resource_fork
    → length (file_bytes file) ≡ 248
unfolding file_bytes
length-file_bytes file hd hr = omega (
  arith,
  length-append (fork_bytes file.data_fork) (fork_bytes file.resource_fork),
  length-fork_bytes file.data_fork hd,
  length-fork_bytes file.resource_fork hr,
)
