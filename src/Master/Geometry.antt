-- ===== src/Master/Geometry.antt =====
-- A block number as cylinder, head and sector.
use fsview.Base.{
  ℕ, ◌+◌, ◌-◌, ◌*◌, ◌/◌, ◌%◌, ◌^◌, ◌≤◌, ◌<◌, ◌≡◌, refl, arith, min, Bool-cases, inl, inr, ltb,
  ltb→lt, length, take, drop, false,
}
use fsview.Base.Bits.{bit_and_low}
use fsview.Endian.{lsb}
use fsview.Master.{
  vgeom, new_chs, chs_of, limit, from_lba, Mbr, mbr_bytes, set_type, set_mbr_end, set_end,
  set_byte_end, set_sector_count,
}

vgeom-chs_of : (lba : ℕ) → lba < 1024 * 255 * 63 → vgeom (chs_of lba) ≡ lba
unfolding vgeom chs_of new_chs
vgeom-chs_of lba h = omega (arith, bit_and_low 8 (lba / 63 / 255))

vgeom-limit : vgeom limit ≡ 16450559
unfolding vgeom limit new_chs
vgeom-limit = refl

last_block : (lba : ℕ) → vgeom limit < lba → vgeom limit ≡ min lba 16450559
last_block lba h = omega (arith, vgeom-limit)

up_to_last : (lba : ℕ) → ltb (vgeom limit) lba ≡ false → vgeom (chs_of lba) ≡ min lba 16450559
up_to_last lba h =
    let le : lba ≤ 16450559 = ground (arith, vgeom-limit, h) in
    omega (arith, vgeom-chs_of lba (omega arith))

-- A block number reads back from its cylinder, head and sector, up to the last one that these can
-- name, which stands for every larger one.
pub vgeom-from_lba : (lba : ℕ) → vgeom (from_lba lba) ≡ min lba 16450559
unfolding from_lba
vgeom-from_lba lba = elim (Bool-cases (ltb (vgeom limit) lba)) [
  | inl above ↦ let larger = ltb→lt (vgeom limit) lba above in rw above (last_block lba larger)
  | inr below ↦ rw below (up_to_last lba below)
]

-- For a partition from block `offset` on and an end after it, below 2 ^ 32 sectors, the boot record
-- has 512 bytes, the type at byte 450, and the first sector and the number of sectors up to the end
-- at the bytes 454 and 458.
pub mbr_bytes_lem :
    (fs offset blocks blk_size : ℕ) (mbr : Mbr)
    → offset < 2 ^ 32
    → offset ≤ blocks * blk_size / 512
    → blocks * blk_size / 512 < 2 ^ 32
    → (length (mbr_bytes (set_mbr_end blocks blk_size (set_type fs offset mbr))) ≡ 512)
      × (take 1 (drop 450 (mbr_bytes (set_mbr_end blocks blk_size (set_type fs offset mbr))))
          ≡ lsb 1 fs)
      × (take 4 (drop 454 (mbr_bytes (set_mbr_end blocks blk_size (set_type fs offset mbr))))
          ≡ lsb 4 offset)
      × (take 4 (drop 458 (mbr_bytes (set_mbr_end blocks blk_size (set_type fs offset mbr))))
          ≡ lsb 4 (blocks * blk_size / 512 - offset))
unfolding mbr_bytes set_mbr_end set_type set_end set_byte_end set_sector_count
mbr_bytes_lem fs offset blocks blk_size mbr ho he hs =
    let same : offset % 2 ^ 32 ≡ offset = omega arith in
    let sectors : (blocks * blk_size / 512 + 2 ^ 64 - offset) % 2 ^ 32
        ≡ blocks * blk_size / 512 - offset =
      omega arith in
    (refl, refl, rw same refl, rw (same, sectors) refl)
