-- ===== src/Burner.antt =====
-- impl/burner.h and impl/burner.cpp: the planner that collects extents, and the burner into memory.
-- `none` is a call of abort(), or undefined behaviour: a signed overflow or a read out of bounds.
pub mod Image
pub mod Plan
pub mod Padding
pub mod Burned
pub mod Commit
pub mod Reading
mod Tests
use mathlib.Core.Option
use fsview.Base.{
  ℕ, ◌+◌, ◌-◌, ◌*◌, ◌/◌, ◌%◌, ◌^◌, ◌<◌, max, Bool, true, false, Option, none, some, List, [], ◌∷◌,
  ◌++◌, if◌then◌else◌, ◌==◌, ltb, leb, length, take, drop, replicate, ◌>>=◌,
}
use fsview.Base.Words.{is_negative}
use fsview.Extent.{Extent, Medium, Media, round_up, padding, zero_extent}

-- `_burner` is a pointer to a medium.
pub record Planner : Type 0 where
  pub burner : ℕ
  pub extlist : List Extent
  pub client_sz : ℕ
  pub offset : ℕ

abbrev pub new_planner : ℕ → Planner
new_planner burner = record { burner = burner; extlist = []; client_sz = 1; offset = 0 }

unfoldable pub block_size : Media → Planner → ℕ
block_size media p = max p.client_sz ((media p.burner).block_size)

unfoldable pub request_block_size : ℕ → Planner → Planner
request_block_size sz p = if ltb p.client_sz sz then record p { client_sz = sz } else p

-- The offset before the call, and the planner after it.
unfoldable pub append : Extent → Planner → Option (ℕ × Planner)
append extent p =
    if is_negative extent.length
    then none
    else if leb (2 ^ 63) (p.offset + extent.length)
    then none
    else some (
      p.offset,
      record p {
        extlist = if extent.length == 0 then p.extlist else p.extlist ++ (extent ∷ []);
        offset = p.offset + extent.length;
      },
    )

-- IAppend::padTo, over the planner's append.
unfoldable pub pad_to : ℕ → Planner → Option (ℕ × Planner)
pad_to blk_sz p =
    let pad = padding p.offset blk_sz in
    do (placed, p') ← append (zero_extent pad) p; some (pad, p')

unfoldable pub auto_pad : Media → Planner → Option (ℕ × Planner)
unfolding pad_to block_size
auto_pad media p = pad_to (block_size media p) p

-- `Extent( since, offset() - since, _burner )` after padding.
unfoldable pub wrap_to_go : Media → ℕ → Planner → Option (Extent × Planner)
unfolding auto_pad
wrap_to_go media since p = do
  (pad, p') ← auto_pad media p
  some (record { offset = since; length = p'.offset - since; medium = some p'.burner }, p')

unfoldable pub copad : Media → Planner → Planner → Option (ℕ × Planner × Planner)
unfolding pad_to block_size
copad media left right =
    let common = max (block_size media left) (block_size media right) in
    do
      (padl, left') ← pad_to common left
      (padr, right') ← pad_to common right
      some (common, left', right')

-- What a planner calls of the burner behind it. `append` is without the offset that it returns,
-- which the planner does not read.
pub record BurnerOps (S : Type 0) : Type 0 where
  pub reserve : ℕ → S → Option S
  pub burn : Extent → S → Option S
  pub finish : S → Option S

-- The loop of Planner::commit. (Its check of the burner's offset only prints.)
unfoldable pub burn_all : {S : Type 0} → BurnerOps S → List Extent → S → Option S
burn_all ops [] s = some s
burn_all ops (x ∷ xs) s = do s' ← if x.length == 0 then some s else ops.burn x s; burn_all ops xs s'

unfoldable pub commit : {S : Type 0} → BurnerOps S → Planner → S → Option (Planner × S)
unfolding burn_all
commit ops p s = do
  s1 ← ops.reserve p.offset s
  s2 ← burn_all ops p.extlist s1
  s3 ← ops.finish s2
  some (record p { extlist = [] }, s3)

-- The bytes `[ offset, offset + len )`, `none` beyond the end.
abbrev pub slice : ℕ → ℕ → List ℕ → Option (List ℕ)
slice offset len bytes =
    if leb (offset + len) (length bytes) then some (take len (drop offset bytes)) else none

pub record VectBurner : Type 0 where
  pub blk_sz : ℕ
  pub out_vec : List ℕ

-- What VectBurner::append reads of a medium: the bytes of one in memory, zeros for any other.
abbrev pub contents_of : Media → Option ℕ → Option (List ℕ)
contents_of media none = none
contents_of media (some m) = (media m).contents

abbrev pub read_contents : Option (List ℕ) → ℕ → ℕ → Option (List ℕ)
read_contents none offset len = some (replicate len 0)
read_contents (some bytes) offset len = slice offset len bytes

unfoldable pub appended : Media → Extent → Option (List ℕ)
appended media x = read_contents (contents_of media x.medium) x.offset x.length

unfoldable pub vect_append : Media → Extent → VectBurner → Option (ℕ × VectBurner)
unfolding appended
vect_append media x b = do
  bytes ← appended media x
  some (length b.out_vec, record b { out_vec = b.out_vec ++ bytes })

-- reserve() changes the capacity alone, and commit() is the empty default.
unfoldable pub vect_ops : Media → BurnerOps VectBurner
unfolding vect_append
vect_ops media = record {
  reserve = λ size b. some b;
  burn = λ x b. vect_append media x b >>= (λ r. some (r.1));
  finish = λ b. some b;
}

-- AutoPad and WrapToGo of impl/extent.h for a burner into memory at the pointer `self`.
unfoldable pub vect_wrap_to_go : Media → ℕ → ℕ → VectBurner → Option (Extent × VectBurner)
unfolding vect_append
vect_wrap_to_go media self since b =
    let pad = padding (length b.out_vec) b.blk_sz in
    do
      (placed, b') ← vect_append media (zero_extent pad) b
      some (record { offset = since; length = length b'.out_vec - since; medium = some self }, b')
