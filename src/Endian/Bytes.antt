-- ===== src/Endian/Bytes.antt =====
-- The two byte orders of impl/endian.h: what is stored does not depend on the host, and what is read
-- back is what was assigned.
use mathlib.Core.List.{reverse, reverse-reverse, reverse-cons}
use fsview.Base.{
  ℕ, zero, suc, ◌+◌, ◌*◌, ◌/◌, ◌%◌, ◌^◌, ◌<◌, ◌≡◌, refl, sym, ap, ◌∙◌, arith, Bool, true, false,
  List, [], ◌∷◌, ◌++◌, length, length-append, All, All-append, if◌then◌else◌,
}
use fsview.Endian.{
  lsb, msb, from_lsb, swap, swin, in_memory, assign, current, assign_both, bilateral_bytes, to_int,
}

pub length-msb : (n x : ℕ) → length (msb n x) ≡ n
length-msb zero x = refl
length-msb (suc n) x =
    omega (arith, length-append (msb n (x / 256)) (x % 256 ∷ []), length-msb n (x / 256))

pub length-lsb : (n x : ℕ) → length (lsb n x) ≡ n
length-lsb zero x = refl
length-lsb (suc n) x = ap suc (length-lsb n (x / 256))

pub reverse-lsb : (n x : ℕ) → reverse (lsb n x) ≡ msb n x
reverse-lsb zero x = refl
reverse-lsb (suc n) x = rw (reverse-cons (x % 256) (lsb n (x / 256)), reverse-lsb n (x / 256)) refl

pub reverse-msb : (n x : ℕ) → reverse (msb n x) ≡ lsb n x
reverse-msb n x = ap reverse (sym (reverse-lsb n x)) ∙ reverse-reverse (lsb n x)

abbrev pub IsByte : ℕ → Type 0
IsByte b = b < 256

pub lsb-IsByte : (n x : ℕ) → All IsByte (lsb n x)
lsb-IsByte zero x = tt
lsb-IsByte (suc n) x = (omega arith, lsb-IsByte n (x / 256))

pub msb-IsByte : (n x : ℕ) → All IsByte (msb n x)
msb-IsByte zero x = tt
msb-IsByte (suc n) x =
    All-append IsByte (msb n (x / 256)) (x % 256 ∷ []) (msb-IsByte n (x / 256)) (omega arith, tt)

-- Bytes are read back from the number that they make.
pub lsb-from_lsb : (bytes : List ℕ) → All IsByte bytes → lsb (length bytes) (from_lsb bytes) ≡ bytes
lsb-from_lsb [] h = refl
lsb-from_lsb (b ∷ bytes) (hb, h) =
    let low : (b + 256 * from_lsb bytes) % 256 ≡ b = omega arith in
    let high : (b + 256 * from_lsb bytes) / 256 ≡ from_lsb bytes = omega arith in
    rw (low, high, lsb-from_lsb bytes h)

pub from_lsb-lsb : (n x : ℕ) → x < 256 ^ n → from_lsb (lsb n x) ≡ x
from_lsb-lsb zero x h = omega arith
from_lsb-lsb (suc n) x h =
    let below : x / 256 < 256 ^ n = omega arith in
    let rest = from_lsb-lsb n (x / 256) below in omega (arith, rest)

pub lsb-swap : (n x : ℕ) → lsb n (swap n x) ≡ msb n x
unfolding swap
lsb-swap n x =
    ap (λ k. lsb k (from_lsb (msb n x))) (sym (length-msb n x))
    ∙ lsb-from_lsb (msb n x) (msb-IsByte n x)

pub msb-swap : (n x : ℕ) → msb n (swap n x) ≡ lsb n x
msb-swap n x = sym (reverse-lsb n (swap n x)) ∙ ap reverse (lsb-swap n x) ∙ reverse-msb n x

pub swap-swap : (n x : ℕ) → x < 256 ^ n → swap n (swap n x) ≡ x
unfolding swap
swap-swap n x h = ap from_lsb (msb-swap n x) ∙ from_lsb-lsb n x h

-- For every word size and value and on a host of either byte order, the bytes in memory of a word
-- that was assigned to an LSB (an MSB) are those of the value, the least (the most) significant
-- first.
pub in_memory-assign :
    (is_le l : Bool) (n x : ℕ)
    → in_memory is_le n (assign is_le l n x).val ≡ (if l then lsb n x else msb n x)
unfolding in_memory assign swin
in_memory-assign true true n x = refl
in_memory-assign true false n x = lsb-swap n x
in_memory-assign false true n x = msb-swap n x
in_memory-assign false false n x = refl

pub current-assign :
    (is_le l : Bool) (n x : ℕ) → x < 256 ^ n → current is_le l n (assign is_le l n x) ≡ x
unfolding current assign swin
current-assign true true n x h = refl
current-assign true false n x h = swap-swap n x h
current-assign false true n x h = swap-swap n x h
current-assign false false n x h = refl

-- The half in the host's own order is kept as it is.
to_own : (is_le : Bool) (n x : ℕ) → (assign is_le is_le n x).val ≡ x
unfolding assign swin
to_own true n x = refl
to_own false n x = refl

-- A Bilateral that was assigned a value of n bytes reads as this value on a host of either byte
-- order, and its bytes are the value with the least significant byte first and then with the most
-- significant one first.
pub assign_both_lem :
    (is_le : Bool) (n x : ℕ)
    → x < 256 ^ n
    → (to_int is_le (assign_both is_le n x) ≡ x)
      × (bilateral_bytes is_le n (assign_both is_le n x) ≡ lsb n x ++ msb n x)
unfolding to_int assign_both bilateral_bytes
assign_both_lem true n x h =
    (to_own true n x, rw (in_memory-assign true true n x, in_memory-assign true false n x) refl)
assign_both_lem false n x h =
    (to_own false n x, rw (in_memory-assign false true n x, in_memory-assign false false n x) refl)
