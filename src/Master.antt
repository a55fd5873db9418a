-- ===== src/Master.antt =====
-- impl/master.h and impl/master.cpp: the master boot record, and the cylinders, heads and sectors of
-- its partitions.
pub mod Geometry
mod Tests
use fsview.Base.{
  ℕ, ◌+◌, ◌-◌, ◌*◌, ◌/◌, ◌%◌, ◌^◌, bit_and, List, [], ◌∷◌, ◌++◌, if◌then◌else◌, ltb, replicate,
}
use fsview.Base.Words.{sub64}
use fsview.Endian.{lsb}
use fsview.Extent.{mapper_bs}

-- `s` has six bits, `hc` two and `lc` eight.
pub record Chs : Type 0 where
  pub h : ℕ
  pub s : ℕ
  pub hc : ℕ
  pub lc : ℕ

-- A blkcnt_t in two's complement.
unfoldable pub vgeom : Chs → ℕ
vgeom c = sub64 (((c.hc * 2 ^ 8 + c.lc) * 255 + c.h) * 63 + c.s) 1

unfoldable pub new_chs : ℕ → ℕ → ℕ → Chs
new_chs cyl head sect = record {
  h = head % 2 ^ 8;
  s = sect % 2 ^ 6;
  hc = cyl / 2 ^ 8 % 2 ^ 2;
  lc = bit_and cyl 0xff;
}

unfoldable pub chs_of : ℕ → Chs
unfolding new_chs
chs_of lba = new_chs (lba / 63 / 255) (lba / 63 % 255) (lba % 63 + 1)

unfoldable pub empty : Chs
unfolding new_chs
empty = new_chs 0 0 0

unfoldable pub limit : Chs
unfolding new_chs
limit = new_chs 1023 254 63

unfoldable pub from_lba : ℕ → Chs
unfolding vgeom chs_of limit
from_lba blkid = if ltb (vgeom limit) blkid then limit else chs_of blkid

abbrev pub chs_bytes : Chs → List ℕ
chs_bytes c = c.h % 256 ∷ (c.s + 2 ^ 6 * c.hc) % 256 ∷ c.lc % 256 ∷ []

pub record FixedDisk : Type 0 where
  pub status : ℕ
  pub start : Chs
  pub fs : ℕ
  pub end : Chs
  pub lba_start : ℕ
  pub lba_count : ℕ

abbrev pub inactive : FixedDisk
inactive = record { status = 0; start = empty; fs = 0; end = empty; lba_start = 0; lba_count = 0 }

unfoldable pub set_sector_count : ℕ → FixedDisk → FixedDisk
unfolding from_lba
set_sector_count size disk = record disk {
  lba_count = size % 2 ^ 32;
  end = from_lba ((disk.lba_start + size % 2 ^ 32) % 2 ^ 32);
}

-- The sectors up to a byte, less those before the partition.
unfoldable pub set_byte_end : ℕ → FixedDisk → FixedDisk
unfolding set_sector_count
set_byte_end size disk = set_sector_count (size / mapper_bs + 2 ^ 64 - disk.lba_start) disk

unfoldable pub set_end : ℕ → ℕ → FixedDisk → FixedDisk
unfolding set_byte_end
set_end blocks blk_sz disk = set_byte_end (blocks * blk_sz) disk

abbrev pub fixed_disk_bytes : FixedDisk → List ℕ
fixed_disk_bytes d =
    (d.status % 256 ∷ chs_bytes d.start)
    ++ (d.fs % 256 ∷ chs_bytes d.end)
    ++ lsb 4 d.lba_start
    ++ lsb 4 d.lba_count

-- The four entries.
pub record Mbr : Type 0 where
  pub first : FixedDisk
  pub second : FixedDisk
  pub third : FixedDisk
  pub fourth : FixedDisk

abbrev pub new_mbr : Mbr
new_mbr = record { first = inactive; second = inactive; third = inactive; fourth = inactive }

unfoldable pub set_type : ℕ → ℕ → Mbr → Mbr
unfolding chs_of
set_type fs offset mbr = record mbr {
  first = record (mbr.first) {
    status = 0x80;
    fs = fs;
    start = chs_of offset;
    lba_start = offset % 2 ^ 32;
  };
}

unfoldable pub set_mbr_end : ℕ → ℕ → Mbr → Mbr
unfolding set_end
set_mbr_end blocks blk_size mbr = record mbr { first = set_end blocks blk_size mbr.first }

unfoldable pub mbr_bytes : Mbr → List ℕ
mbr_bytes mbr =
    replicate 446 0
    ++ fixed_disk_bytes mbr.first
    ++ fixed_disk_bytes mbr.second
    ++ fixed_disk_bytes mbr.third
    ++ fixed_disk_bytes mbr.fourth
    ++ (0x55 ∷ 0xaa ∷ [])
