-- ===== src/Extent/Tests.antt =====
-- The block arithmetic at concrete inputs.
use fsview.Base.{◌≡◌, refl, arith, true, false, [], ◌∷◌, ◌++◌, length}
use fsview.Extent.{Range, round_up}
use fsview.Extent.Bitmap.{BitsMedium, new_bits, write_to_fd, is_used}
use fsview.Extent.Bitmap.Exact.{write_to_fd-is_used}
use fsview.Extent.Bitmap.Repeat.{write_to_fd-repeats}

round_up_run : round_up 1000 512 ≡ 1024
unfolding round_up
round_up_run = refl

abbrev three_blocks : Range
three_blocks = record { offset = 4096; length = 1100 }

-- Twelve blocks are used, in chunks of two bytes.
abbrev twelve : BitsMedium
twelve = new_bits false 2 12

write_to_fd-is_used_example :
    (length (write_to_fd twelve 0 2 (7 ∷ 7 ∷ [])) ≡ 2)
    × (is_used (write_to_fd twelve 0 2 (7 ∷ 7 ∷ [])) 11 ≡ true)
write_to_fd-is_used_example =
    write_to_fd-is_used twelve 2 (7 ∷ 7 ∷ []) 11 (omega arith) (omega arith)

write_to_fd-repeats_example :
    write_to_fd twelve 0 4 (7 ∷ 7 ∷ [])
    ≡ write_to_fd twelve 0 2 (7 ∷ 7 ∷ []) ++ write_to_fd twelve 0 2 (7 ∷ 7 ∷ [])
write_to_fd-repeats_example = write_to_fd-repeats twelve (7 ∷ 7 ∷ []) (omega arith)
