-- ===== src/Base/Words.antt =====
-- 64-bit words in two's complement, as the native numbers below 2 ^ 64. A word with the top bit
-- set stands for a negative number.
use Prim.Native.Nat.{ℕ, ◌<◌, ◌≤◌, ◌+◌, ◌-◌, ◌%◌, ◌^◌}
use mathlib.Core.Path.{◌≡◌}
use mathlib.Core.Bool.{Bool}
use mathlib.Core.Option.{Option, none, some}
use native.Mathlib.Omega.{arith}
use fsview.Base.Tests.{leb, ltb, if◌then◌else◌}

abbrev pub word : ℕ
word = 2 ^ 64

abbrev pub add64 : ℕ → ℕ → ℕ
add64 a b = (a + b) % 2 ^ 64

abbrev pub sub64 : ℕ → ℕ → ℕ
sub64 a b = (a + 2 ^ 64 - b) % 2 ^ 64

-- `~a`
abbrev pub lnot64 : ℕ → ℕ
lnot64 a = 2 ^ 64 - 1 - a

-- `a < 0`
abbrev pub is_negative : ℕ → Bool
is_negative a = leb (2 ^ 63) a

-- `a < b` and `a <= b`
abbrev pub slt64 : ℕ → ℕ → Bool
slt64 a b = ltb (add64 a (2 ^ 63)) (add64 b (2 ^ 63))

abbrev pub sle64 : ℕ → ℕ → Bool
sle64 a b = leb (add64 a (2 ^ 63)) (add64 b (2 ^ 63))

-- `a + b` and `a - b`, with `none` for an overflow.
unfoldable pub sadd64 : ℕ → ℕ → Option ℕ
sadd64 a b =
    if is_negative a
    then (if is_negative b
        then (if is_negative (add64 a b) then some (add64 a b) else none)
        else some (add64 a b))
    else if is_negative b
    then some (add64 a b)
    else if is_negative (add64 a b)
    then none
    else some (add64 a b)

unfoldable pub ssub64 : ℕ → ℕ → Option ℕ
ssub64 a b =
    if is_negative a
    then (if is_negative b
        then some (sub64 a b)
        else if is_negative (sub64 a b)
        then some (sub64 a b)
        else none)
    else if is_negative b
    then (if is_negative (sub64 a b) then none else some (sub64 a b))
    else some (sub64 a b)

pub sadd64_small : (a b : ℕ) → a + b < 2 ^ 63 → sadd64 a b ≡ some (a + b)
unfolding sadd64
sadd64_small a b h = ground arith

pub ssub64_small : (a b : ℕ) → b ≤ a → a < 2 ^ 63 → ssub64 a b ≡ some (a - b)
unfolding ssub64
ssub64_small a b le h = ground arith

pub sub64_small : (a b : ℕ) → b ≤ a → a < b + 2 ^ 64 → sub64 a b ≡ a - b
sub64_small a b le h = omega arith

pub sle64_small : (a b : ℕ) → a < 2 ^ 63 → b < 2 ^ 63 → sle64 a b ≡ leb a b
sle64_small a b h h' = ground arith

pub slt64_small : (a b : ℕ) → a < 2 ^ 63 → b < 2 ^ 63 → slt64 a b ≡ ltb a b
slt64_small a b h h' = ground arith
