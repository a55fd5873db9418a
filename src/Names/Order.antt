-- ===== src/Names/Order.antt =====
-- Unicomp of impl/unique.h: names are compared part by part, between their separators. A wchar_t is
-- taken as not negative.
use fsview.Base.{
  ℕ, zero, suc, ◌+◌, ◌-◌, max, min, List, [], ◌∷◌, if◌then◌else◌, ◌==◌, ltb, leb, length, drop,
}
use fsview.Text.{Unicode}

pub data Sign : Type 0 where
  below : Sign
  same : Sign
  above : Sign

-- Unicomp::sep.
abbrev pub sep : ℕ → List ℕ → ℕ → ℕ
sep size [] sep_id = size
sep size (s ∷ seps) zero = s
sep size (s ∷ seps) (suc sep_id) = sep size seps sep_id

abbrev pub compare : ℕ → ℕ → Sign
compare x y = if ltb x y then below else if ltb y x then above else same

abbrev pub or_else : Sign → Sign → Sign
or_else below next = below
or_else same next = next
or_else above next = above

-- wcsncmp, which a zero ends. Neither string is read past its end.
unfoldable pub wcsncmp : ℕ → Unicode → Unicode → Sign
wcsncmp zero l r = same
wcsncmp (suc n) [] r = same
wcsncmp (suc n) (x ∷ l) [] = same
wcsncmp (suc n) (x ∷ l) (y ∷ r) = or_else (compare x y) (if x == 0 then same else wcsncmp n l r)

unfoldable pub cmpp : Unicode → ℕ → ℕ → Unicode → ℕ → ℕ → Sign
unfolding wcsncmp
cmpp left last_left next_left right last_right next_right =
    let left_count = next_left - last_left in
    let right_count = next_right - last_right in
    if leb next_left last_left
    then (if leb next_right last_right then same else below)
    else if leb next_right last_right
    then above
    else or_else
        (wcsncmp (min left_count right_count) (drop last_left left) (drop last_right right))
        (compare left_count right_count)

-- The loop of Unicomp::cmp, with the number of steps that are left.
unfoldable pub cmp_from : ℕ → ℕ → Unicode → List ℕ → ℕ → Unicode → List ℕ → ℕ → Sign
unfolding cmpp
cmp_from zero step conv seps last_left other others last_right = same
cmp_from (suc steps) step conv seps last_left other others last_right =
    let next_left = sep (length conv) seps step in
    let next_right = sep (length other) others step in
    or_else (cmpp conv last_left next_left other last_right next_right)
      (cmp_from steps (step + 1) conv seps (next_left + 1) other others (next_right + 1))

unfoldable pub cmp : Unicode → List ℕ → Unicode → List ℕ → Sign
unfolding cmp_from
cmp conv seps other others =
    cmp_from (max (length seps) (length others) + 1) 0 conv seps 0 other others 0
