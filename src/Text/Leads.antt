-- ===== src/Text/Leads.antt =====
-- UTF8Homebrew::trailCount over all bytes.
use fsview.Base.{ℕ, ◌+◌, ◌<◌, ◌≡◌, refl, Bool, true, false, ◌&&◌, arith, ◌==◌}
use fsview.Text.{Leftover, continued, forbidden, trailing, trail_count}
use fsview.Text.Scan.{passes, passes_each}

is_lead : ℕ → ℕ → Leftover × ℕ → Bool
is_lead n v (continued, octet) = false
is_lead n v (forbidden, octet) = false
is_lead n v (trailing m, octet) = (m == n) && (octet == v)

is_lead-eq : (n v : ℕ) (r : Leftover × ℕ) → is_lead n v r ≡ true → r ≡ (trailing n, v)
unfolding is_lead
is_lead-eq n v (continued, octet) e = cc
is_lead-eq n v (forbidden, octet) e = cc
is_lead-eq n v (trailing m, octet) e =
    let same_m : m ≡ n = ground arith in
    let same_v : octet ≡ v = ground arith in rw (same_m, same_v)

is_tail : ℕ → Leftover × ℕ → Bool
is_tail v (continued, octet) = octet == v
is_tail v (forbidden, octet) = false
is_tail v (trailing m, octet) = false

is_tail-eq : (v : ℕ) (r : Leftover × ℕ) → is_tail v r ≡ true → r ≡ (continued, v)
unfolding is_tail
is_tail-eq v (continued, octet) e = let same : octet ≡ v = ground arith in rw same
is_tail-eq v (forbidden, octet) e = cc
is_tail-eq v (trailing m, octet) e = cc

lead_table : (n mark : ℕ) → ℕ → Bool
unfolding is_lead
lead_table n mark v = is_lead n v (trail_count (mark + v))

tail_table : ℕ → Bool
unfolding is_tail
tail_table v = is_tail v (trail_count (0x80 + v))

-- The answers of trailCount, byte by byte.
pub trail_count_0 : (v : ℕ) → v < 128 → trail_count (0x00 + v) ≡ (trailing 0, v)
trail_count_0 v h =
    let table : passes (lead_table 0 0x00) 0 128 ≡ true =
      unfold passes lead_table trail_count is_lead in refl in
    is_lead-eq 0 v _ (unfold lead_table in passes_each _ 0 128 table v (omega arith) (omega arith))

pub trail_count_1 : (v : ℕ) → v < 32 → trail_count (0xc0 + v) ≡ (trailing 1, v)
trail_count_1 v h =
    let table : passes (lead_table 1 0xc0) 0 32 ≡ true =
      unfold passes lead_table trail_count is_lead in refl in
    is_lead-eq 1 v _ (unfold lead_table in passes_each _ 0 32 table v (omega arith) (omega arith))

pub trail_count_2 : (v : ℕ) → v < 16 → trail_count (0xe0 + v) ≡ (trailing 2, v)
trail_count_2 v h =
    let table : passes (lead_table 2 0xe0) 0 16 ≡ true =
      unfold passes lead_table trail_count is_lead in refl in
    is_lead-eq 2 v _ (unfold lead_table in passes_each _ 0 16 table v (omega arith) (omega arith))

pub trail_count_3 : (v : ℕ) → v < 8 → trail_count (0xf0 + v) ≡ (trailing 3, v)
trail_count_3 v h =
    let table : passes (lead_table 3 0xf0) 0 8 ≡ true =
      unfold passes lead_table trail_count is_lead in refl in
    is_lead-eq 3 v _ (unfold lead_table in passes_each _ 0 8 table v (omega arith) (omega arith))

pub trail_count_tail : (v : ℕ) → v < 64 → trail_count (0x80 + v) ≡ (continued, v)
trail_count_tail v h =
    let table : passes tail_table 0 64 ≡ true =
      unfold passes tail_table trail_count is_tail in refl in
    is_tail-eq v _ (unfold tail_table in passes_each _ 0 64 table v (omega arith) (omega arith))
