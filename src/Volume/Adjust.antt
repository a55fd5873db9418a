-- ===== src/Volume/Adjust.antt =====
-- The block size is the allowed one that is nearest to the wanted one.
use fsview.Base.{
  ℕ, ◌+◌, ◌-◌, ◌^◌, ◌≤◌, ◌<◌, ◌≡◌, refl, arith, min, max, bit_and, Bool, true, false, not, some,
  if◌then◌else◌, ◌==◌, leb, ==_iff,
}
use fsview.Base.Below.{all_below, all_below_at}
use fsview.Volume.{wanted, choose_size, adjust}

-- The sizes from 2 ^ a to 2 ^ b.
abbrev pub size_range : ℕ → ℕ → ℕ
size_range a b = 2 ^ (b + 1) - 2 ^ a

abbrev nearest_is_chosen : ℕ → ℕ → ℕ → Bool
unfolding choose_size
nearest_is_chosen k b a =
    if leb a b then choose_size (2 ^ k) (size_range a b) == 2 ^ max a (min k b) else true

le-leb : (a b : ℕ) → a ≤ b → leb a b ≡ true
le-leb a b h = ground arith

choose_size-nearest :
    (k a b : ℕ)
    → k < 24
    → b < 16
    → a ≤ b
    → choose_size (2 ^ k) (size_range a b) ≡ 2 ^ max a (min k b)
unfolding choose_size nearest_is_chosen
choose_size-nearest k a b hk hb hab =
    let all_k =
      all_below_at 24 (λ k. all_below 16 (λ b. all_below 16 (nearest_is_chosen k b))) refl k hk in
    let all_b = all_below_at 16 (λ b. all_below 16 (nearest_is_chosen k b)) all_k b hb in
    let all_a = all_below_at 16 (nearest_is_chosen k b) all_b a (omega arith) in
    let in_order : leb a b ≡ true = le-leb a b hab in
    let chosen : (choose_size (2 ^ k) (size_range a b) == 2 ^ max a (min k b)) ≡ true =
      rw in_order at all_a in
    (==_iff (choose_size (2 ^ k) (size_range a b)) (2 ^ max a (min k b))).0 chosen

not-true : (x : Bool) → not x ≡ true → x ≡ false
not-true true h = absurd (cc)
not-true false h = refl

some_size : ℕ → ℕ → Bool
some_size b a = if leb a b then not (size_range a b == 0) else true

size_range-pos : (a b : ℕ) → b < 16 → a ≤ b → (size_range a b == 0) ≡ false
unfolding some_size
size_range-pos a b hb hab =
    let all_b = all_below_at 16 (λ b. all_below 16 (some_size b)) refl b hb in
    let all_a = all_below_at 16 (some_size b) all_b a (omega arith) in
    let in_order : leb a b ≡ true = le-leb a b hab in
    not-true (size_range a b == 0) (rw in_order at all_a)

-- Where the sizes that both the source and the file system allow are the powers of two from 2 ^ a to
-- 2 ^ b, below 64K, and the wanted size is a power of two below 16M, the block size is the wanted one
-- where this is allowed, and the smallest or the largest allowed one where it is not.
pub adjust_nearest :
    (in_mask my_mask own out_image tmp_image page k a b : ℕ)
    → bit_and in_mask my_mask ≡ size_range a b
    → wanted own out_image tmp_image page ≡ 2 ^ k
    → k < 24
    → b < 16
    → a ≤ b
    → adjust in_mask my_mask own out_image tmp_image page ≡ some (2 ^ max a (min k b))
unfolding adjust
adjust_nearest in_mask my_mask own out_image tmp_image page k a b hm hw hk hb hab =
    let allowed : (size_range a b == 0) ≡ false = size_range-pos a b hb hab in
    rw (hm, hw, allowed, choose_size-nearest k a b hk hb hab) refl
