-- ===== src/Cd/Records.antt =====
-- A reader of ISO 9660 folders, and where writeEntry puts the records for it.
use mathlib.Core.List.{append-nil}
use native.Mathlib.Nat.{mod-add-mod, mod-eq_of_lt, mod-eq-sub-mod, mod-lt, pow-le-pow_right}
use fsview.Base.{
  ℕ, zero, suc, ◌+◌, ◌-◌, ◌*◌, ◌%◌, ◌^◌, ◌≤◌, ◌<◌, ◌≡◌, refl, ap, sym, ◌∙◌, arith, false, ◌⊎◌,
  Option, some, none, List, [], ◌∷◌, ◌++◌, length, take, drop, length-append, length-replicate,
  drop-append_left, take-append_left, All, if◌then◌else◌, ltb, ◌==◌, le_or_lt, inl, inr, ◌>>=◌,
}
use fsview.Extent.{padding}
use fsview.Extent.Rounding.{padding_aligns, pow_bounds}
use fsview.Cd.{zeros}

-- A driver: a zero where a record would begin leads to the next block, and a record that crosses the
-- end of its block is refused. `pos` counts the bytes read so far.
unfoldable pub read_folder : ℕ → ℕ → ℕ → List ℕ → Option (List (List ℕ))
read_folder blk fuel pos [] = some []
read_folder blk zero pos (l ∷ rest) = none
read_folder blk (suc fuel) pos (l ∷ rest) =
    let left = blk - pos % blk in
    let skipped = read_folder blk fuel (pos + left) (drop left (l ∷ rest)) in
    let later = read_folder blk fuel (pos + l) (drop l (l ∷ rest)) in
    if l == 0
    then skipped
    else if ltb left l
    then none
    else (later >>= (λ rs. some (take l (l ∷ rest) ∷ rs)))

-- A record begins with its own length.
abbrev pub IsRecord : List ℕ → Type 0
IsRecord [] = ⊥
IsRecord (l ∷ t) = (l ≡ suc (length t)) × (l ≤ 255)

-- Records from a position on, with the free space at the ends of the blocks.
abbrev pub gap : ℕ → ℕ → List ℕ → ℕ
gap blk pos r = if ltb (padding pos blk) (length r) then padding pos blk else 0

abbrev pub laid : ℕ → ℕ → List (List ℕ) → List ℕ
laid blk pos [] = zeros (padding pos blk)
laid blk pos (r ∷ rs) = zeros (gap blk pos r) ++ (r ++ laid blk (pos + gap blk pos r + length r) rs)

-- Two numbers that reach a multiple of m together.
complement :
    (m a p : ℕ) → 1 ≤ m → (a + p) % m ≡ 0 → p < m → ((a % m ≡ 0) × (p ≡ 0)) ⊎ (p ≡ m - a % m)
complement m a p hm h near =
    let small = mod-lt a {m = m} hm in
    let sum : (a % m + p) % m ≡ 0 = mod-add-mod a m p ∙ h in
    elim (le_or_lt m (a % m + p)) [
      | inl over ↦ inr (
          omega (
            arith,
            mod-eq-sub-mod {n = a % m + p} {m = m} over,
            mod-eq_of_lt {n = a % m + p - m} {m = m} (omega arith),
          ))
      | inr under ↦ let none_left = mod-eq_of_lt under in inl (omega arith)
    ]

-- Padding is what is left of a block that has been begun.
padding_left :
    (k pos : ℕ)
    → k < 63
    → pos < 2 ^ 63
    → ((pos % 2 ^ k ≡ 0) × (padding pos (2 ^ k) ≡ 0)) ⊎ (padding pos (2 ^ k) ≡ 2 ^ k - pos % 2 ^ k)
padding_left k pos hk h =
    let (aligned, near) = padding_aligns k pos hk h in
    complement (2 ^ k) pos (padding pos (2 ^ k)) (pow_bounds k hk).0 aligned near

read_gap :
    (blk fuel pos g : ℕ) (rest : List ℕ)
    → blk - pos % blk ≡ suc g
    → read_folder blk (suc fuel) pos (zeros (suc g) ++ rest)
      ≡ read_folder blk fuel (pos + suc g) rest
unfolding read_folder
read_gap blk fuel pos g rest h =
    rw (h, drop-append_left g (zeros g) rest (length-replicate g 0)) refl

read_record :
    (blk fuel pos : ℕ) (r rest : List ℕ)
    → IsRecord r
    → length r ≤ blk - pos % blk
    → read_folder blk (suc fuel) pos (r ++ rest)
      ≡ (read_folder blk fuel (pos + length r) rest >>= (λ rs. some (r ∷ rs)))
unfolding read_folder
read_record blk fuel pos [] rest h fits = absurd h
read_record blk fuel pos (l ∷ t) rest (e, h) fits =
    let inside : ltb (blk - pos % blk) (suc (length t)) ≡ false = ground arith in
    let after = drop-append_left (length t) t rest refl in
    let taken = take-append_left (length t) t rest refl in
    let some_size : (suc (length t) == 0) ≡ false = ground arith in
    rw (e, some_size, inside, after, taken) refl

read_free :
    (blk fuel pos p : ℕ)
    → (p ≡ 0) ⊎ (p ≡ blk - pos % blk)
    → read_folder blk (suc fuel) pos (zeros p) ≡ some []
unfolding read_folder
read_free blk fuel pos zero h = refl
read_free blk fuel pos (suc p) (inl e) = absurd (omega arith)
read_free blk fuel pos (suc p) (inr e) =
    ap (read_folder blk (suc fuel) pos) (sym (append-nil (zeros (suc p))))
    ∙ read_gap blk fuel pos p [] (sym e)

record_short : (r : List ℕ) → IsRecord r → length r ≤ 255
record_short [] h = absurd h
record_short (l ∷ t) (e, h) = omega arith

-- Whether a gap is left in front of a record or not, it is then inside its block.
gap_cases :
    (k pos : ℕ) (r : List ℕ)
    → 9 ≤ k
    → k < 63
    → pos < 2 ^ 63
    → IsRecord r
    → ((gap (2 ^ k) pos r ≡ 0) × (length r ≤ 2 ^ k - pos % 2 ^ k))
      ⊎ ((gap (2 ^ k) pos r ≡ 2 ^ k - pos % 2 ^ k)
          × (1 ≤ gap (2 ^ k) pos r)
          × (length r ≤ 2 ^ k - (pos + gap (2 ^ k) pos r) % 2 ^ k))
gap_cases k pos r lo hk small h =
    let short = record_short r h in
    let block : 512 ≤ 2 ^ k = pow-le-pow_right {n = 2} (omega arith) {i = 9} {j = k} lo in
    let (aligned, near) = padding_aligns k pos hk small in
    let partial = mod-lt pos {m = 2 ^ k} (omega arith) in
    elim (padding_left k pos hk small) [
      | inl (start, none_left) ↦ inl (ground arith, omega arith)
      | inr left ↦ elim (le_or_lt (length r) (padding pos (2 ^ k))) [
        | inl fits ↦ inl (ground arith, omega arith)
        | inr over ↦
            let whole : gap (2 ^ k) pos r ≡ padding pos (2 ^ k) = ground arith in
            inr (whole ∙ left, omega arith, rw (whole, aligned) (omega arith))
      ]
    ]

read_step :
    (blk fuel pos pos' : ℕ) (r rest : List ℕ) (rs : List (List ℕ))
    → IsRecord r
    → length r ≤ blk - pos % blk
    → pos + length r ≡ pos'
    → read_folder blk fuel pos' rest ≡ some rs
    → read_folder blk (suc fuel) pos (r ++ rest) ≡ some (r ∷ rs)
read_step blk fuel pos pos' r rest rs h fits e ih =
    rw (read_record blk fuel pos r rest h fits, e, ih) refl

gap_step :
    (blk fuel pos g : ℕ) (rest : List ℕ) (rs : List (List ℕ))
    → 1 ≤ g
    → g ≡ blk - pos % blk
    → read_folder blk fuel (pos + g) rest ≡ some rs
    → read_folder blk (suc fuel) pos (zeros g ++ rest) ≡ some rs
gap_step blk fuel pos zero rest rs h e ih = absurd (omega arith)
gap_step blk fuel pos (suc g) rest rs h e ih = read_gap blk fuel pos g rest (sym e) ∙ ih

-- Records that are laid from a position on read as they are, up to the end of the last block.
pub read-laid :
    (k fuel pos : ℕ) (rs : List (List ℕ))
    → 9 ≤ k
    → k < 63
    → All IsRecord rs
    → pos + length (laid (2 ^ k) pos rs) < 2 ^ 63
    → 2 * length rs < fuel
    → read_folder (2 ^ k) fuel pos (laid (2 ^ k) pos rs) ≡ some rs
read-laid k zero pos rs lo hk hs small enough = absurd (omega arith)
read-laid k (suc fuel) pos [] lo hk hs small enough =
    read_free (2 ^ k) fuel pos (padding pos (2 ^ k))
      (elim (padding_left k pos hk (omega arith)) [ inl (a, b) ↦ inl b | inr b ↦ inr b ])
read-laid k (suc zero) pos (r ∷ rs) lo hk (h, hs) small enough = absurd (omega arith)
read-laid k (suc (suc fuel)) pos (r ∷ rs) lo hk (h, hs) small enough =
    let blk = 2 ^ k in
    let next = pos + gap blk pos r + length r in
    let rest = laid blk next rs in
    let long = length-append (zeros (gap blk pos r)) (r ++ rest) in
    let small' : next + length rest < 2 ^ 63 =
      omega
        (arith, small, long, length-append r rest, length-replicate {A = ℕ} (gap blk pos r) 0) in
    elim (gap_cases k pos r lo hk (omega arith) h) [
      | inl (none_left, fits) ↦
          ap (λ g. read_folder blk (suc (suc fuel)) pos (zeros g ++ (r ++ rest))) none_left
          ∙ read_step blk (suc fuel) pos next r rest rs h fits (omega arith)
              (read-laid k (suc fuel) next rs lo hk hs small' (omega arith))
      | inr (left, some_left, fits) ↦
          gap_step blk (suc fuel) pos (gap blk pos r) (r ++ rest) (r ∷ rs) some_left left (
            read_step blk fuel (pos + gap blk pos r) next r rest rs h fits refl
              (read-laid k fuel next rs lo hk hs small' (omega arith)))
    ]

-- Each record takes less than two blocks with its gap.
pub length_laid :
    (k pos : ℕ) (rs : List (List ℕ))
    → 9 ≤ k
    → k < 63
    → All IsRecord rs
    → pos + (2 * length rs + 1) * 2 ^ k < 2 ^ 63
    → length (laid (2 ^ k) pos rs) ≤ (2 * length rs + 1) * 2 ^ k
length_laid k pos [] lo hk hs small = omega (
  arith,
  (padding_aligns k pos hk (omega arith)).1,
  length-replicate {A = ℕ} (padding pos (2 ^ k)) 0,
)
length_laid k pos (r ∷ rs) lo hk (h, hs) small =
    let next = pos + gap (2 ^ k) pos r + length r in
    let rest = laid (2 ^ k) next rs in
    let short = record_short r h in
    let block : 512 ≤ 2 ^ k = pow-le-pow_right {n = 2} (omega arith) {i = 9} {j = k} lo in
    let double : (2 * length (r ∷ rs) + 1) * 2 ^ k ≡ (2 * length rs + 1) * 2 ^ k + 2 * 2 ^ k =
      grind arith in
    let near = (padding_aligns k pos hk (omega arith)).1 in
    let gap_small : gap (2 ^ k) pos r < 2 ^ k = ground arith in
    let ih = length_laid k next rs lo hk hs (omega arith) in
    omega (
      arith,
      ih,
      length-append (zeros (gap (2 ^ k) pos r)) (r ++ rest),
      length-append r rest,
      length-replicate {A = ℕ} (gap (2 ^ k) pos r) 0,
    )

-- A record that fits the rest of its block follows at once.
pub laid_flush :
    (k pos : ℕ) (r : List ℕ) (rs : List (List ℕ))
    → k < 63
    → pos < 2 ^ 63
    → pos % 2 ^ k + length r ≤ 2 ^ k
    → laid (2 ^ k) pos (r ∷ rs) ≡ r ++ laid (2 ^ k) (pos + length r) rs
laid_flush k pos r rs hk small fits =
    let no_gap : gap (2 ^ k) pos r ≡ 0 = elim (padding_left k pos hk small) [
      | inl (start, none_left) ↦ ground arith
      | inr left ↦ ground arith
    ] in
    let next : pos + gap (2 ^ k) pos r + length r ≡ pos + length r = omega arith in
    ap (λ p. zeros (gap (2 ^ k) pos r) ++ (r ++ laid (2 ^ k) p rs)) next
    ∙ ap (λ g. zeros g ++ (r ++ laid (2 ^ k) (pos + length r) rs)) no_gap
