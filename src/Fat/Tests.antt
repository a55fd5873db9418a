-- ===== src/Fat/Tests.antt =====
-- A small table, and the theorems at concrete inputs.
use fsview.Base.{◌+◌, ◌%◌, ◌^◌, ◌≤◌, ◌<◌, All, ℕ, ◌≡◌, refl, arith, false, List, [], ◌∷◌, some, inr}
use fsview.Base.SortedMap.{insert, lookup}
use fsview.Fat.{
  VFatMedium, endmark, set_chain, set_line, set_last, set_next, shadow, fill_scalar, fill_vector,
}
use fsview.Text.{Unicode}
use fsview.Burner.Image.{total}
use fsview.Fat.Entry.{Tm}
use fsview.Fat.LongName.Gather.{IsUcs2, ReadsBack, long_entries-ReadsBack}
use fsview.Burner.{new_planner}
use fsview.Burner.Plan.{IsPlanned}
use fsview.Fat.Headers.{new_volume_desc}
use fsview.Fat.Headers.Reserve.{ReservesHeaders, plan_headers_lem}
use fsview.Fat.Chain.{entry, set_chain_spells, set_chain_keeps}
use fsview.Fat.Fill.{fill_vector-fill_scalar}

abbrev table : List (ℕ × ℕ) → VFatMedium
table amendments = record {
  favor_freespace = false;
  total_bytes = 128;
  chunk_size = 128;
  amendments = amendments;
}

-- A file in the clusters 10 to 12 and 5 to 6, and one in 20 to 21.
abbrev linked : VFatMedium
linked = table ((16, endmark) ∷ (24, endmark) ∷ (36, endmark) ∷ (48, 5) ∷ [])

linked_run : set_chain ((10, 12) ∷ (5, 6) ∷ []) (table []) ≡ some linked
unfolding set_chain set_line set_last set_next shadow insert lookup
linked_run = refl

set_chain_spells_example :
    ((i : ℕ) → 10 ≤ i → i < 12 → entry linked i ≡ (i + 1) % 2 ^ 32) × (entry linked 12 ≡ 5)
unfolding lookup
set_chain_spells_example =
    set_chain_spells [] ((5, 6) ∷ []) 10 12 (table []) refl
      (omega arith, (inr (omega arith), tt), (omega arith, tt, tt))
      ((λ i h1 h2. refl), ((λ i h1 h2. refl), tt)) linked_run

abbrev both : VFatMedium
both =
    table
      ((16, endmark) ∷ (24, endmark) ∷ (36, endmark) ∷ (48, 5) ∷ (76, endmark) ∷ (84, endmark) ∷ [])

both_run : set_chain ((20, 21) ∷ []) linked ≡ some both
unfolding set_chain set_line set_last set_next shadow insert lookup
both_run = refl

set_chain_keeps_example : (entry both 12 ≡ 5) × (entry linked 12 ≡ 5)
unfolding lookup
set_chain_keeps_example =
    set_chain_keeps ((20, 21) ∷ []) 12 5 linked refl (omega arith, tt, tt)
      ((λ i h1 h2. ground arith), tt) both_run ((omega arith), tt) refl

fill_vector-fill_scalar_example : fill_vector 8 2 ≡ fill_scalar 8 8
fill_vector-fill_scalar_example = fill_vector-fill_scalar 8 2 (omega arith)

-- "ab" as a long name.
abbrev two_letters : Unicode
two_letters = 97 ∷ 98 ∷ []

two_letters-IsUcs2 : All IsUcs2 two_letters
unfolding IsUcs2
two_letters-IsUcs2 = ((omega arith, omega arith), ((omega arith, omega arith), tt))

long_entries-ReadsBack_example : ReadsBack two_letters 17
long_entries-ReadsBack_example =
    long_entries-ReadsBack two_letters 17 two_letters-IsUcs2 (omega arith)

-- The 29th of February 2024, 13:14:15.
abbrev leap_day : Tm
leap_day = record {
  tm_sec = 15;
  tm_min = 14;
  tm_hour = 13;
  tm_mday = 29;
  tm_mon = 1;
  tm_year = 124;
}

start-IsPlanned : IsPlanned (new_planner 0)
unfolding total
start-IsPlanned = record { counted = refl; small = omega arith }

plan_headers_lem_example : ReservesHeaders 1 2 3 4096 new_volume_desc (new_planner 0)
plan_headers_lem_example =
    plan_headers_lem 12 1 2 3 new_volume_desc (new_planner 0) (omega arith) (omega arith)
      start-IsPlanned (omega arith) (omega arith)
