-- ===== src/Text/Euro.antt =====
-- The European table of impl/strenc.inc: EuroDeco, and what its entries have in common.
mod PartA
mod PartB
mod PartC
mod PartD
mod PartE
mod PartF
mod PartG
use fsview.Base.{
  ℕ, ◌≡◌, ◌≢◌, ◌∙◌, refl, ap, sym, Bool, true, false, ◌&&◌, ltb, List, [], ◌∷◌, ◌++◌, some, none,
  Option, arith,
}
use fsview.Base.SortedMap.{lookup}
use fsview.Text.{Unicode, Deco, map_deco, correct}
use fsview.Text.Legal.{AllLegal, all_legal, values_legal, values_legal-RepairsTo, correct_repairs}
use fsview.Text.Euro.PartA.{replacements_a}
use fsview.Text.Euro.PartB.{replacements_b}
use fsview.Text.Euro.PartC.{replacements_c}
use fsview.Text.Euro.PartD.{replacements_d}
use fsview.Text.Euro.PartE.{replacements_e}
use fsview.Text.Euro.PartF.{replacements_f}
use fsview.Text.Euro.PartG.{replacements_g}

unfoldable pub euro_table : List (ℕ × Unicode)
euro_table =
    replacements_a ++ replacements_b ++ replacements_c ++ replacements_d ++ replacements_e
    ++ replacements_f ++ replacements_g

unfoldable pub euro_deco : Deco
unfolding euro_table map_deco
euro_deco = map_deco euro_table

-- Keys above a bound and in ascending order.
unfoldable ascends : ℕ → List (ℕ × Unicode) → Bool
ascends b [] = true
ascends b ((k, v) ∷ m) = ltb b k && ascends k m

-- The keys of the table are in ascending order, as a std::map keeps them.
table_ascends : ascends 0 euro_table ≡ true
unfolding ascends euro_table
table_ascends = refl

table_legal : values_legal euro_table euro_table ≡ true
unfolding values_legal all_legal euro_table lookup
table_legal = refl

-- Whatever correct() answers by the European table holds no character of the table, and is left as
-- it is by a second correction.
pub correct-euro_deco_idempotent :
    (s t : Unicode)
    → correct euro_deco s ≡ some t
    → AllLegal euro_table t × (correct euro_deco t ≡ some t)
unfolding euro_deco
correct-euro_deco_idempotent s t e =
    correct_repairs euro_table
      (λ c v known. values_legal-RepairsTo euro_table euro_table c v table_legal known) s t e
