-- ===== src/Volume/Reserved.antt =====
-- A reserved area has the size that was asked for.
use fsview.Base.{
  ◌∙◌, ℕ, ◌+◌, ◌-◌, ◌^◌, ◌≤◌, ◌<◌, ◌≡◌, refl, arith, ◌∷◌, [], ◌++◌, true, false, Option, some, none,
  ltb, leb, ◌==◌, if◌then◌else◌, inl, inr, Bool-cases,
}
use fsview.Base.Words.{is_negative}
use fsview.Extent.{zero_extent}
use fsview.Burner.{Planner, append}
use fsview.Base.Words.{sub64, slt64, sub64_small, slt64_small}
use fsview.Volume.{Slave, ask_slave, plan_reserved}

append_zero :
    (n : ℕ) (p : Planner)
    → p.offset + n < 2 ^ 63
    → (p' : Planner) × (append (zero_extent n) p ≡ some (p.offset, p')) × (p'.offset ≡ p.offset + n)
unfolding append zero_extent
append_zero n p small =
    let positive : is_negative n ≡ false = ground arith in
    let fits : leb (2 ^ 63) (p.offset + n) ≡ false = ground arith in
    (
      record p {
        extlist = if n == 0 then p.extlist else p.extlist ++ (zero_extent n ∷ []);
        offset = p.offset + n;
      },
      rw (positive, fits) refl,
      refl,
    )

-- The comparisons of planReserved, where no length is negative.
module _ (slave : Option Slave) (out tmp out1 tmp1 : Planner) (room : ℕ)
    (answers : ask_slave slave out tmp room ≡ some (out1, tmp1)) (grows : out.offset ≤ out1.offset)
    (fits : out1.offset < 2 ^ 63) (small : out.offset + room < 2 ^ 63) where
  len : sub64 out1.offset out.offset ≡ out1.offset - out.offset
  len = sub64_small out1.offset out.offset grows (omega arith)

  less_lem : slt64 (out1.offset - out.offset) room ≡ ltb (out1.offset - out.offset) room
  less_lem = slt64_small (out1.offset - out.offset) room (omega arith) (omega arith)

  more_lem : slt64 room (out1.offset - out.offset) ≡ ltb room (out1.offset - out.offset)
  more_lem = slt64_small room (out1.offset - out.offset) (omega arith) (omega arith)

  fill_less :
      ltb (out1.offset - out.offset) room ≡ true
      → {placed : ℕ} {out' : Planner}
      → append (zero_extent (room - (out1.offset - out.offset))) out1 ≡ some (placed, out')
      → plan_reserved slave out tmp room ≡ some (out', tmp1)
  unfolding plan_reserved
  fill_less less run =
      let left : sub64 room (out1.offset - out.offset) ≡ room - (out1.offset - out.offset) =
        sub64_small room (out1.offset - out.offset) (ground (arith, less)) (omega arith) in
      let test = less_lem ∙ less in rw (answers, len, test, left, run) refl

  fill_enough :
      ltb (out1.offset - out.offset) room ≡ false
      → ltb room (out1.offset - out.offset) ≡ false
      → plan_reserved slave out tmp room ≡ some (out1, tmp1)
  unfolding plan_reserved
  fill_enough enough full =
      let test = less_lem ∙ enough in
      let test' = more_lem ∙ full in rw (answers, len, test, test') refl

  fill_breach :
      ltb (out1.offset - out.offset) room ≡ false
      → ltb room (out1.offset - out.offset) ≡ true
      → plan_reserved slave out tmp room ≡ none
  unfolding plan_reserved
  fill_breach not_less too_much =
      let test = less_lem ∙ not_less in
      let test' = more_lem ∙ too_much in rw (answers, len, test, test') refl

-- The planners after planReserved, of which the one of the output grew by room.
pub Reserves : Option Slave → Planner → Planner → ℕ → Type 0
Reserves slave out tmp room =
    (out' : Planner) × (tmp' : Planner) × (plan_reserved slave out tmp room ≡ some (out', tmp'))
    × (out'.offset ≡ out.offset + room)

-- Where the slave, if there is one, answers and writes no more than it may, planReserved succeeds and
-- the output is longer by exactly the size of the area.
pub plan_reserved_lem :
    (slave : Option Slave) (out tmp out1 tmp1 : Planner) (room : ℕ)
    → ask_slave slave out tmp room ≡ some (out1, tmp1)
    → out.offset ≤ out1.offset
    → out1.offset ≤ out.offset + room
    → out.offset + room < 2 ^ 63
    → Reserves slave out tmp room
unfolding Reserves
plan_reserved_lem slave out tmp out1 tmp1 room answers grows within small =
    elim (Bool-cases (ltb (out1.offset - out.offset) room)) [
      | inl less ↦
          let (out', run, longer) =
            append_zero (room - (out1.offset - out.offset)) out1 (omega arith) in
          (
            out',
            tmp1,
            fill_less slave out tmp out1 tmp1 room answers grows (omega arith) small less run,
            ground (arith, longer, less),
          )
      | inr enough ↦
          let full : ltb room (out1.offset - out.offset) ≡ false = ground arith in
          (
            out1,
            tmp1,
            fill_enough slave out tmp out1 tmp1 room answers grows (omega arith) small enough full,
            ground (arith, enough),
          )
    ]

-- A slave that writes more than it may ends the program.
pub plan_reserved-breach :
    (slave : Slave) (out tmp out1 tmp1 : Planner) (room : ℕ)
    → slave out tmp room ≡ some (out1, tmp1)
    → out.offset + room < out1.offset
    → out1.offset < 2 ^ 63
    → plan_reserved (some slave) out tmp room ≡ none
plan_reserved-breach slave out tmp out1 tmp1 room answers more fits =
    fill_breach (some slave) out tmp out1 tmp1 room answers (omega arith) fits (omega arith)
      (ground arith) (ground arith)
