-- ===== src/Master/Tests.antt =====
-- A boot record at concrete inputs.
use fsview.Base.{◌≡◌, arith, length, take, drop}
use fsview.Endian.{lsb}
use fsview.Master.{new_mbr, set_type, set_mbr_end, mbr_bytes}
use fsview.Master.Geometry.{mbr_bytes_lem}

-- An HFS+ partition from sector 64 on, on 100 blocks of 4096 bytes.
mbr_bytes_lem_example :
    (length (mbr_bytes (set_mbr_end 100 4096 (set_type 0xaf 64 new_mbr))) ≡ 512)
    × (take 1 (drop 450 (mbr_bytes (set_mbr_end 100 4096 (set_type 0xaf 64 new_mbr)))) ≡ lsb 1 0xaf)
    × (take 4 (drop 454 (mbr_bytes (set_mbr_end 100 4096 (set_type 0xaf 64 new_mbr)))) ≡ lsb 4 64)
    × (take 4 (drop 458 (mbr_bytes (set_mbr_end 100 4096 (set_type 0xaf 64 new_mbr)))) ≡ lsb 4 736)
mbr_bytes_lem_example =
    mbr_bytes_lem 0xaf 64 100 4096 new_mbr (omega arith) (omega arith) (omega arith)
