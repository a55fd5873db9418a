-- ===== src/Volume/Tests.antt =====
-- The agreement on a block size, and a reserved area, at concrete inputs.
use fsview.Base.{ℕ, ◌+◌, ◌≡◌, refl, arith, some, []}
use fsview.Burner.{Planner, new_planner}
use fsview.Volume.{Slave, adjust}
use fsview.Volume.Adjust.{adjust_nearest}
use fsview.Volume.Reserved.{Reserves, plan_reserved_lem}

-- A page is too large for a CD, which has blocks of 2048 bytes.
adjust_nearest_example : adjust 4095 2048 0 512 4096 4096 ≡ some 2048
adjust_nearest_example =
    adjust_nearest 4095 2048 0 512 4096 4096 12 11 11 refl refl (omega arith) (omega arith)
      (omega arith)

abbrev behind : ℕ → Planner
behind at = record { burner = 0; extlist = []; client_sz = 1; offset = at }

-- A slave that fills 1024 bytes.
abbrev small_slave : Slave
small_slave out tmp room = some (behind (out.offset + 1024), tmp)

plan_reserved_lem_example : Reserves (some small_slave) (new_planner 0) (new_planner 1) 0x8000
plan_reserved_lem_example =
    plan_reserved_lem (some small_slave) (new_planner 0) (new_planner 1) (behind 1024)
      (new_planner 1) 0x8000 refl (omega arith) (omega arith) (omega arith)
