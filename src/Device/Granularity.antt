-- ===== src/Device/Granularity.antt =====
-- Geometry::granularity: which block sizes the charted extents allow.
use native.Mathlib.Nat.{zero-mod}
use fsview.Base.{
  ℕ, zero, suc, ◌+◌, ◌-◌, ◌*◌, ◌%◌, ◌^◌, ◌≤◌, ◌<◌, ◌≡◌, ◌∙◌, ◌↔◌, refl, max, arith, leb,
  if◌then◌else◌, bit_or, some, true, List, [], ◌∷◌, inl, inr, le_or_lt, >>=-eq-some,
}
use fsview.Base.Words.{lnot64}
use fsview.Base.TestBit.{
  test_bit, test_bit-mod, test_bit-shift, test_bit-bit_or, test_bit-complement, low_bits-zero,
  zero-low_bits,
}
use fsview.Extent.{Extent, Media}
use fsview.Device.{
  Geometry, chart_one, chart, shl64, as_lower_bound, blocks_mappable, granularity, no_geometry,
}

-- The highest of the `n` bits of `m` at `i` and below.
window : ℕ → ℕ → ℕ → ℕ
window m i zero = 0
window m i (suc n) = max (window m i n) (if leb n i then test_bit m (i - n) else 0)

-- Two windows side by side.
window-add :
    (m i a b : ℕ)
    → window m i (b + a) ≡ max (window m i a) (if leb a i then window m (i - a) b else 0)
unfolding window
window-add m i a zero = let e : 0 + a ≡ a = omega arith in rw e (ground arith)
window-add m i a (suc b) =
    let e : suc b + a ≡ suc (b + a) = omega arith in
    let index : i - a - b ≡ i - (b + a) = omega arith in
    rw (e, index) (ground (arith, window-add m i a b))

-- `x` has a bit wherever `m` has one among the `n` bits at that place and below.
abbrev Smeared : ℕ → ℕ → ℕ → Type 0
Smeared m n x = (i : ℕ) → i < 64 → test_bit x i ≡ window m i n

-- One round doubles the window.
smear : (m n x : ℕ) → Smeared m n x → Smeared m (n + n) (bit_or x (shl64 x n))
smear m n x h i lt =
    test_bit-bit_or i x (shl64 x n)
    ∙ ground (
      arith,
      h i,
      h (i - n),
      test_bit-mod 64 i (x * 2 ^ n),
      test_bit-shift n i x,
      window-add m i n n,
    )

as_lower_bound-Smeared : (m : ℕ) → Smeared m 64 (as_lower_bound m)
unfolding as_lower_bound
as_lower_bound-Smeared m =
    let start : Smeared m 1 m =
      λ i lt. let index : i - 0 ≡ i = omega arith in unfold window in ground arith in
    smear m 32 _ (smear m 16 _ (smear m 8 _ (smear m 4 _ (smear m 2 _ (smear m 1 m start)))))

window-zero : (m i n j : ℕ) → window m i n ≡ 0 → j < n → j ≤ i → test_bit m (i - j) ≡ 0
unfolding window
window-zero m i zero j h lt le = absurd (omega arith)
window-zero m i (suc n) j h lt le = elim (le_or_lt n j) [
  | inl last ↦ let same : i - j ≡ i - n = omega arith in rw same (ground arith)
  | inr before ↦ window-zero m i n j (omega arith) before le
]

zero-window : (m i n : ℕ) → ((j : ℕ) → j ≤ i → test_bit m j ≡ 0) → window m i n ≡ 0
unfolding window
zero-window m i zero h = refl
zero-window m i (suc n) h = ground (arith, zero-window m i n h, h (i - n))

window-low_bits : (m i : ℕ) → i < 64 → window m i 64 ≡ 0 → m % 2 ^ suc i ≡ 0
window-low_bits m i lt h = low_bits-zero (suc i) m λ j below.
    let index : i - (i - j) ≡ j = omega arith in
    rw index at (window-zero m i 64 (i - j) h (omega arith) (omega arith))

low_bits-window : (m i : ℕ) → m % 2 ^ suc i ≡ 0 → window m i 64 ≡ 0
low_bits-window m i h = zero-window m i 64 (λ j le. zero-low_bits (suc i) m j h (omega arith))

-- The mask that granularity answers, over the smeared mask of the extents.
allowed : ℕ → ℕ
allowed m = lnot64 (shl64 (as_lower_bound m) 1)

allowed-bit :
    (m i : ℕ) → i < 64 → test_bit (allowed m) i + test_bit (as_lower_bound m * 2 ^ 1) i ≡ 1
unfolding allowed
allowed-bit m i lt =
    rw (← test_bit-mod 64 i (as_lower_bound m * 2 ^ 1) lt)
      (test_bit-complement 64 i (shl64 (as_lower_bound m) 1) lt (omega arith))

allowed_lem : (m i : ℕ) → i < 64 → (test_bit (allowed m) i ≡ 1) ↔ (m % 2 ^ i ≡ 0)
allowed_lem m zero lt = (
  λ e. omega arith,
  λ e. omega (arith, allowed-bit m 0 lt, test_bit-shift 1 0 (as_lower_bound m)),
)
allowed_lem m (suc i) lt =
    let bit = allowed-bit m (suc i) lt in
    let moved : test_bit (as_lower_bound m * 2 ^ 1) (suc i) ≡ window m i 64 =
      ground (arith, test_bit-shift 1 (suc i) (as_lower_bound m), as_lower_bound-Smeared m i) in
    (
      λ e. window-low_bits m i (omega arith) (omega arith),
      λ e. omega (arith, low_bits-window m i e),
    )

bit_or-low_bits : (n a b : ℕ) → (bit_or a b % 2 ^ n ≡ 0) ↔ ((a % 2 ^ n ≡ 0) × (b % 2 ^ n ≡ 0))
bit_or-low_bits n a b = (
  λ e. (
    low_bits-zero n a (λ i lt. omega (arith, test_bit-bit_or i a b, zero-low_bits n _ i e lt)),
    low_bits-zero n b (λ i lt. omega (arith, test_bit-bit_or i a b, zero-low_bits n _ i e lt)),
  ),
  λ (ea, eb). low_bits-zero n (bit_or a b) λ i lt.
      omega (arith, test_bit-bit_or i a b, zero-low_bits n a i ea lt, zero-low_bits n b i eb lt),
)

-- All offsets, and all lengths but the last, are multiples of a block size.
abbrev pub Aligned : ℕ → List Extent → Type 0
Aligned d [] = Unit
Aligned d (x ∷ []) = x.offset % d ≡ 0
Aligned d (x ∷ y ∷ xs) = (x.offset % d ≡ 0) × (x.length % d ≡ 0) × Aligned d (y ∷ xs)

chart_one-mask :
    (media : Media) (x : Extent) (g : Geometry) {g' : Geometry}
    → chart_one media x g ≡ some g'
    → g'.mask ≡ g.mask
unfolding chart_one
chart_one-mask media x g e = ground arith

chart-mask :
    (media : Media) (n : ℕ) (xs : List Extent) (g : Geometry) {g' : Geometry}
    → chart media xs g ≡ some g'
    → (g'.mask % 2 ^ n ≡ 0) ↔ ((g.mask % 2 ^ n ≡ 0) × Aligned (2 ^ n) xs)
unfolding chart
chart-mask media n [] g {g'} e =
    let same : g.mask ≡ g'.mask = cc in (λ h. (rw same h, tt), λ h. rw (← same) (h.0))
chart-mask media n (x ∷ []) g {g'} e =
    let (g1, e1, e2) = >>=-eq-some (chart_one media x g) _ e in
    let same = chart_one-mask media x g e1 in
    let sum : bit_or g1.mask x.offset ≡ g'.mask = cc in
    let (to, from) = bit_or-low_bits n g1.mask x.offset in
    (
      λ h. let (h1, h2) = to (rw sum h) in (rw (← same) h1, h2),
      λ (h1, h2). rw (← sum) (from (rw same h1, h2)),
    )
chart-mask media n (x ∷ y ∷ xs) g e =
    let (g1, e1, e2) = >>=-eq-some (chart_one media x g) _ e in
    let ih = chart-mask media n (y ∷ xs) _ e2 in
    let same = chart_one-mask media x g e1 in
    let (to, from) = bit_or-low_bits n (bit_or g1.mask x.offset) x.length in
    let (to', from') = bit_or-low_bits n g1.mask x.offset in
    (
      λ h.
          let (h1, rest) = ih.0 h in
          let (h2, hl) = to h1 in let (h3, ho) = to' h2 in (rw (← same) h3, (ho, hl, rest)),
      λ (h1, h2). ih.1 (from (from' (rw same h1, h2.0), h2.1), h2.2),
    )

-- After the extents of one file are charted in an empty geometry over media that can be mapped,
-- granularity succeeds, and for every i below 64 its mask has bit i exactly when all offsets of
-- the extents, and all lengths but the last, are multiples of 2 ^ i.
pub granularity_lem :
    (media : Media) (xs : List Extent) (mapper_block i : ℕ) {g : Geometry}
    → chart media xs no_geometry ≡ some g
    → blocks_mappable media mapper_block g.d_map ≡ true
    → i < 64
    → (mask : ℕ) × (granularity media mapper_block g ≡ some mask)
      × ((test_bit mask i ≡ 1) ↔ Aligned (2 ^ i) xs)
unfolding granularity
granularity_lem media xs mapper_block i {g} e mappable lt =
    let (to, from) = chart-mask media i xs no_geometry e in
    let (to', from') = allowed_lem g.mask i lt in
    (
      allowed g.mask,
      unfold allowed in rw mappable,
      (λ h. (to (to' h)).1, λ h. from' (from (zero-mod (2 ^ i), h))),
    )
