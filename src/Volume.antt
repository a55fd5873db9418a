-- ===== src/Volume.antt =====
-- Volume of impl/volume.h and impl/volume.cpp: the block size that is agreed on, and the space that a
-- master leaves to its slave. The slave (a Hybrid) is a parameter, as are the block sizes of the
-- images and the page size of the host. `none` is abort().
pub mod Adjust
pub mod Reserved
mod Tests
use fsview.Base.{
  ℕ, ◌+◌, ◌-◌, ◌*◌, ◌/◌, ◌%◌, ◌^◌, max, bit_and, Bool, true, false, not, Option, none, some, List,
  map, if◌then◌else◌, ltb, ◌==◌, ◌>>=◌,
}
use fsview.Base.Words.{lnot64, sub64, slt64}
use fsview.Extent.{mapper_bs, zero_extent}
use fsview.Burner.{Planner, append}
use fsview.Names.{ensure_d}

pub record Booking : Type 0 where
  pub scratch : Bool
  pub scrooge : Bool
  pub xtra_room : ℕ

abbrev pub book_space : Bool → Bool → ℕ → Booking
book_space scratch scrooge extra = record {
  scratch = scratch;
  scrooge = scrooge;
  xtra_room = extra;
}

-- What setTitles hands to setLabels.
abbrev pub clean_title : List ℕ → List ℕ
clean_title title = map ensure_d title

-- The size that adjust() starts from: the one of the volume, the larger one of the images, or a page.
abbrev pub wanted : ℕ → ℕ → ℕ → ℕ → ℕ
wanted own out_image tmp_image page =
    let images = if own == 0 then max out_image tmp_image else own in
    max (if images == 0 then page else images) mapper_bs

-- `( want & mask ) ? want : want > mask ? ( mask & ~( mask >> 1 ) ) : ( mask & ~( mask << 1 ) )`
unfoldable pub choose_size : ℕ → ℕ → ℕ
choose_size want mask =
    if not (bit_and want mask == 0)
    then want
    else if ltb mask want
    then bit_and mask (lnot64 (mask / 2))
    else bit_and mask (lnot64 (mask * 2 % 2 ^ 64))

-- The block size that adjust() sets.
unfoldable pub adjust : ℕ → ℕ → ℕ → ℕ → ℕ → ℕ → Option ℕ
unfolding choose_size
adjust in_mask my_mask own out_image tmp_image page =
    let mask = bit_and in_mask my_mask in
    if mask == 0 then none else some (choose_size (wanted own out_image tmp_image page) mask)

-- masterReserved of the slave: both planners after it.
abbrev pub Slave : Type 0
Slave = Planner → Planner → ℕ → Option (Planner × Planner)

abbrev pub ask_slave : Option Slave → Planner → Planner → ℕ → Option (Planner × Planner)
ask_slave none out tmp room = some (out, tmp)
ask_slave (some slave) out tmp room = slave out tmp room

-- What follows the slave's answer: the rest is zeros, and too much is a breach of trust.
abbrev pub fill_up : ℕ → ℕ → Planner × Planner → Option (Planner × Planner)
fill_up cur room (out, tmp) =
    let len = sub64 out.offset cur in
    if slt64 len room
    then append (zero_extent (sub64 room len)) out >>= (λ placed. some (placed.1, tmp))
    else if slt64 room len
    then none
    else some (out, tmp)

unfoldable pub plan_reserved : Option Slave → Planner → Planner → ℕ → Option (Planner × Planner)
plan_reserved slave out tmp room = ask_slave slave out tmp room >>= fill_up out.offset room
