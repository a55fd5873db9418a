-- ===== src/Fat/Headers/Reserve.antt =====
-- What planHeaders reserves.
use fsview.Base.{
  ℕ, ◌+◌, ◌-◌, ◌*◌, ◌/◌, ◌%◌, ◌^◌, ◌≤◌, ◌<◌, ◌≡◌, refl, ap, sym, ◌∙◌, arith, leb, leb→le, some,
}
use native.Mathlib.Nat.{mod-mod_of_dvd, dvd_of_mod-eq-zero, mul-mod_right}
use fsview.Base.Below.{all_below_at}
use fsview.Base.Bits.{pow-add}
use fsview.Extent.{Extent, zero_extent, padding}
use fsview.Burner.{Planner, append, pad_to}
use fsview.Burner.Plan.{IsPlanned, append_lem, append-Fits}
use fsview.Burner.Padding.{pad_to_lem}
use fsview.Fat.Headers.{VolumeDesc, temp_extent, plan_headers, plan_signature}

-- A short extent is appended.
append_short :
    (n : ℕ) (x : Extent) {p : Planner}
    → IsPlanned p
    → x.length ≡ n
    → n ≤ 512
    → p.offset + 512 < 2 ^ 63
    → (q : Planner) × (append x p ≡ some (p.offset, q)) × IsPlanned q × (q.offset ≡ p.offset + n)
append_short n x {p} v hx hn room =
    let ok : append x p ≡ some (p.offset, _) = append-Fits x p (omega arith, omega arith) in
    let done = append_lem x v ok in (_, ok, done.valid, omega (arith, done.advanced, hx))

zero_extent-length : (n : ℕ) → (zero_extent n).length ≡ n
unfolding zero_extent
zero_extent-length n = refl

pow_small : (k : ℕ) → k < 23 → 2 ^ k ≤ 2 ^ 22
pow_small k h = leb→le (2 ^ k) (2 ^ 22) (all_below_at 23 (λ k. leb (2 ^ k) (2 ^ 22)) refl k h)

-- A block boundary is one of a sector.
in_sectors : (k pos : ℕ) → 9 ≤ k → pos % 2 ^ k ≡ 0 → pos % 512 ≡ 0
in_sectors k pos low h =
    let e : k ≡ 9 + (k - 9) = omega arith in
    let blocks : 2 ^ k ≡ 512 * 2 ^ (k - 9) = ap (λ j. 2 ^ j) e ∙ pow-add 2 9 (k - 9) in
    sym (
      mod-mod_of_dvd 512 {b = 2 ^ k} pos (
        dvd_of_mod-eq-zero 512 {n = 2 ^ k}
          (ap (λ x. x % 512) blocks ∙ mul-mod_right 512 (2 ^ (k - 9)))))
    ∙ ap (λ x. x % 512) h

-- The sums of the steps, from the planner's offset s.
sums :
    (s b p6 p9 : ℕ)
    → b ≤ 2 ^ 22
    → s < 2 ^ 14
    → s + 1536 ≤ p6
    → p6 < s + 1536 + b
    → p6 + 512 ≤ p9
    → p9 < p6 + 512 + b
    → p9 % 512 ≡ 0
    → (p9 / 512 % 2 ^ 16 * 512 ≡ p9) × (s + 2048 ≤ p9) × (p9 < s + 2048 + 2 * b)
sums s b p6 p9 hb hs lo hi lo' hi' whole = (omega arith, omega arith, omega arith)

-- The last steps.
after_pad :
    (k sig : ℕ) (v : VolumeDesc) {p : Planner}
    → IsPlanned p
    → 2 ^ k ≤ 2 ^ 22
    → k < 23
    → p.offset < 2 ^ 24
    → (q : Planner) × (plan_signature sig (2 ^ k) v p
        ≡ some (record v { reserved_scc = q.offset / 512 % 2 ^ 16 }, q))
      × (p.offset + 512 ≤ q.offset)
      × (q.offset < p.offset + 512 + 2 ^ k)
      × (q.offset % 2 ^ k ≡ 0)
unfolding plan_signature
after_pad k sig v {p} valid bound high small =
    let (p7, e7, v7, o7) =
      append_short 508 (zero_extent 508) valid (zero_extent-length 508) (omega arith)
        (omega arith) in
    let (p8, e8, v8, o8) =
      append_short 4 (temp_extent 4 sig) v7 refl (omega arith) (omega (arith, o7)) in
    let (p9, e9, d9) = pad_to_lem k (omega arith) v8 (omega (arith, o7, o8)) in
    (
      p9,
      rw (e7, e8, e9) refl,
      omega (arith, o7, o8, d9.grown.up),
      omega (arith, o7, o8, d9.near),
      d9.aligned,
    )

-- The volume description and the planner after planHeaders: the reserved sectors that the description
-- names are all that was planned, up to a block boundary.
pub ReservesHeaders : ℕ → ℕ → ℕ → ℕ → VolumeDesc → Planner → Type 0
ReservesHeaders vol sec sig blk_size v planner =
    (v' : VolumeDesc) × (planner' : Planner) × (plan_headers vol sec sig blk_size v planner
      ≡ some (v', planner'))
    × (v'.reserved_scc * 512 ≡ planner'.offset)
    × (planner'.offset % blk_size ≡ 0)
    × (planner.offset + 2048 ≤ planner'.offset)
    × (planner'.offset < planner.offset + 2048 + 2 * blk_size)

-- The first sectors, up to the signature of the second one.
pub Boots : ℕ → ℕ → ℕ → Planner → Type 0
Boots vol sec sig p =
    (p1 : Planner) × (p2 : Planner) × (p3 : Planner) × (p4 : Planner) × (p5 : Planner) × (append
        (temp_extent 512 vol) p
      ≡ some (p.offset, p1))
    × (pad_to 512 p1 ≡ some (padding p1.offset 512, p2))
    × (append (temp_extent 512 sec) p2 ≡ some (p2.offset, p3))
    × (append (zero_extent 508) p3 ≡ some (p3.offset, p4))
    × (append (temp_extent 4 sig) p4 ≡ some (p4.offset, p5))
    × IsPlanned p5
    × (p5.offset ≡ p.offset + 1536)

two_sectors :
    (vol sec : ℕ) (p : Planner)
    → IsPlanned p
    → p.offset % 512 ≡ 0
    → p.offset < 2 ^ 14
    → (p1 : Planner) × (p2 : Planner) × (p3 : Planner) × (append (temp_extent 512 vol) p
        ≡ some (p.offset, p1))
      × (pad_to 512 p1 ≡ some (padding p1.offset 512, p2))
      × (append (temp_extent 512 sec) p2 ≡ some (p2.offset, p3))
      × IsPlanned p3
      × (p3.offset ≡ p.offset + 1024)
two_sectors vol sec p valid aligned start =
    let (p1, e1, v1, o1) =
      append_short 512 (temp_extent 512 vol) {p = p} valid refl (omega arith) (omega arith) in
    let (p2, e2, d2) = pad_to_lem 9 {p = p1} (omega arith) v1 (omega (arith, o1)) in
    let o2 : p2.offset ≡ p.offset + 512 = omega (arith, o1, d2.aligned, d2.near, d2.grown.up) in
    let (p3, e3, v3, o3) =
      append_short 512 (temp_extent 512 sec) {p = p2} d2.valid refl (omega arith)
        (omega (arith, o2)) in
    (p1, p2, p3, e1, e2, e3, v3, omega (arith, o2, o3))

boots :
    (vol sec sig : ℕ) (p : Planner)
    → IsPlanned p
    → p.offset % 512 ≡ 0
    → p.offset < 2 ^ 14
    → Boots vol sec sig p
unfolding Boots
boots vol sec sig p valid aligned start =
    let (p1, p2, p3, e1, e2, e3, v3, o3) = two_sectors vol sec p valid aligned start in
    let (p4, e4, v4, o4) =
      append_short 508 (zero_extent 508) {p = p3} v3 (zero_extent-length 508) (omega arith)
        (omega (arith, o3)) in
    let (p5, e5, v5, o5) =
      append_short 4 (temp_extent 4 sig) {p = p4} v4 refl (omega arith) (omega (arith, o3, o4)) in
    (p1, p2, p3, p4, p5, e1, e2, e3, e4, e5, v5, omega (arith, o3, o4, o5))

-- For blocks of 2 ^ k bytes, k from 9 to 22, and a planner in order whose offset is a multiple of a
-- sector below 16 KiB, planHeaders succeeds, and plans at least four sectors.
pub plan_headers_lem :
    (k vol sec sig : ℕ) (v : VolumeDesc) (planner : Planner)
    → 9 ≤ k
    → k < 23
    → IsPlanned planner
    → planner.offset % 512 ≡ 0
    → planner.offset < 2 ^ 14
    → ReservesHeaders vol sec sig (2 ^ k) v planner
unfolding plan_headers ReservesHeaders Boots
plan_headers_lem k vol sec sig v planner low high valid aligned start =
    let bound = pow_small k high in
    let (p1, p2, p3, p4, p5, e1, e2, e3, e4, e5, v5, o5) =
      boots vol sec sig planner valid aligned start in
    let (p6, e6, d6) = pad_to_lem k {p = p5} (omega arith) v5 (omega (arith, o5, bound)) in
    let hi6 : p6.offset < planner.offset + 1536 + 2 ^ k = omega (arith, o5, d6.near) in
    let lo6 : planner.offset + 1536 ≤ p6.offset = omega (arith, o5, d6.grown.up) in
    let (p9, e9, lo9, hi9, aligned9) =
      after_pad k sig v {p = p6} d6.valid bound high (omega (arith, hi6, bound)) in
    let (reserved, least, most) =
      sums planner.offset (2 ^ k) p6.offset p9.offset bound start lo6 hi6 lo9 hi9
        (in_sectors k p9.offset low aligned9) in
    (
      record v { reserved_scc = p9.offset / 512 % 2 ^ 16 },
      p9,
      rw (e1, e2, e3, e4, e5, e6) e9,
      reserved,
      aligned9,
      least,
      most,
    )
