-- ===== src/Burner/Tests.antt =====
-- A planner over a burner into memory, at concrete inputs.
use fsview.Base.{ℕ, ◌+◌, ◌≡◌, refl, List, [], ◌∷◌, some, false, arith, length, get_elem?}
use fsview.Extent.{Extent, Medium, Media}
use fsview.Burner.{Planner, new_planner, append, commit, vect_ops, VectBurner}
use fsview.Burner.Image.{total, source_at}
use fsview.Burner.Plan.{IsPlanned}
use fsview.Burner.Reading.{byte_at}
use fsview.Burner.Commit.{commit_lem}

abbrev memory : Medium
memory = record {
  contents = some (10 ∷ 11 ∷ 12 ∷ 13 ∷ []);
  block_device = 0;
  is_direct_device = false;
  is_aligned = false;
  id = 7;
  block_size = 1;
}

abbrev memories : Media
memories p = memory

abbrev middle : Extent
middle = record { offset = 1; length = 2; medium = some 5 }

abbrev planned_middle : Planner
planned_middle = record { burner = 3; extlist = middle ∷ []; client_sz = 1; offset = 2 }

planned_middle-IsPlanned : IsPlanned planned_middle
unfolding total
planned_middle-IsPlanned = omega arith

new_planner-IsPlanned : IsPlanned (new_planner 3)
unfolding total
new_planner-IsPlanned = omega arith

append_run : append middle (new_planner 3) ≡ some (0, planned_middle)
unfolding append
append_run = refl

abbrev empty_burner : VectBurner
empty_burner = record { blk_sz = 1; out_vec = 99 ∷ [] }

commit_lem_example :
    (bytes : List ℕ) × (commit (vect_ops memories) planned_middle empty_burner
      ≡ some (record planned_middle { extlist = [] }, record empty_burner { out_vec = 99 ∷ bytes }))
    × (length bytes ≡ 2)
    × (get_elem? (99 ∷ bytes) (1 + 1) ≡ byte_at memories (source_at (middle ∷ []) 1))
commit_lem_example =
    commit_lem memories planned_middle empty_burner 1 planned_middle-IsPlanned (omega arith, tt)
      (omega arith)
