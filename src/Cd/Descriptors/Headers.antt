-- ===== src/Cd/Descriptors/Headers.antt =====
-- Where planHeaders puts the descriptors.
use mathlib.Core.Path.{subst}
use native.Mathlib.Nat.{
  add-mod_right, add-mul-mod_self_right, div-add-mod, mul-le-mul_left, pow-le-pow_right,
}
use fsview.Base.{
  ℕ, suc, ◌+◌, ◌*◌, ◌/◌, ◌%◌, ◌^◌, ◌≤◌, ◌<◌, ◌≡◌, refl, sym, ap, ◌∙◌, arith, some, List, [], ◌∷◌,
  length, le_or_lt, inl, inr,
}
use fsview.Extent.{padding}
use fsview.Burner.{Planner, append, pad_to}
use fsview.Burner.Image.{source_at}
use fsview.Burner.Plan.{IsPlanned, Grown, Grown-refl, Grown-trans, append_lem, append-Fits}
use fsview.Burner.Padding.{pad_to_lem}
use fsview.Cd.Descriptors.{temp_extent, plan_descriptors, plan_headers}

-- Each descriptor begins a block of the plan.
abbrev pub AtBlocks : Planner → ℕ → ℕ → List ℕ → Type 0
AtBlocks q blk start [] = Unit
AtBlocks q blk start (vol ∷ vols) =
    ((j : ℕ) → j < 883 → source_at q.extlist (start + j) ≡ some (some vol, j))
    × AtBlocks q blk (start + blk) vols

next_multiple : (m a b : ℕ) → a % m ≡ 0 → b % m ≡ 0 → a < b → b < a + 2 * m → b ≡ a + m
next_multiple m a b ha hb lo hi =
    let whole_a = div-add-mod a m in
    let whole_b = div-add-mod b m in
    let times_suc : m * (a / m + 1) ≡ m * (a / m) + m = grind arith in
    let times_two : m * (a / m + 2) ≡ m * (a / m) + 2 * m = grind arith in
    elim (le_or_lt (b / m) (a / m)) [
      | inl back ↦ let same = mul-le-mul_left m back in absurd (omega arith)
      | inr over ↦ elim (le_or_lt (a / m + 2) (b / m)) [
        | inl far ↦ let two = mul-le-mul_left m far in absurd (omega arith)
        | inr near ↦ let e : b / m ≡ a / m + 1 = omega arith in omega (arith, ap (λ t. m * t) e)
      ]
    ]

abbrev pub SameDevice : Planner → Planner → Type 0
SameDevice p q = (q.burner ≡ p.burner) × (q.client_sz ≡ p.client_sz)

-- A descriptor and the padding behind it.
record Blocked (k n vol : ℕ) (p q : Planner) : Type 0 where
  valid : IsPlanned q
  grown : Grown p q
  advanced : q.offset ≡ p.offset + 2 ^ k
  laid : (j : ℕ) → j < n → source_at q.extlist (p.offset + j) ≡ some (some vol, j)
  same : SameDevice p q

module _ (k : ℕ) (lo : 10 ≤ k) (hk : k < 60) where
  block :
      (n vol : ℕ) (p : Planner)
      → IsPlanned p
      → 1 ≤ n
      → n ≤ 883
      → p.offset % 2 ^ k ≡ 0
      → p.offset + 2 * 2 ^ k < 2 ^ 63
      → (p1 : Planner) × (q : Planner) × (append (temp_extent n vol) p ≡ some (p.offset, p1))
        × (pad_to (2 ^ k) p1 ≡ some (padding p1.offset (2 ^ k), q))
        × Blocked k n vol p q
  block n vol p v some_bytes short start room =
      let size : 1024 ≤ 2 ^ k = pow-le-pow_right {n = 2} (omega arith) {i = 10} {j = k} lo in
      let x = temp_extent n vol in
      let ok : append x p ≡ some (p.offset, _) = append-Fits x p (omega arith, omega arith) in
      let done = append_lem x v ok in
      let (q, e, padded) = pad_to_lem k (omega arith) done.valid (omega (arith, done.advanced)) in
      (
        _,
        q,
        ok,
        e,
        record {
          valid = padded.valid;
          grown = Grown-trans done.grown padded.grown;
          advanced =
              next_multiple (2 ^ k) p.offset q.offset start padded.aligned
                (omega (arith, done.advanced, padded.grown.up))
                (omega (arith, done.advanced, padded.near));
          laid = λ j h.
              padded.grown.kept (p.offset + j) (omega (arith, done.advanced))
              ∙ done.laid j h
              ∙ ap (λ t. some (some vol, t)) (omega arith);
          same = (padded.same_burner ∙ done.same_burner, padded.same_client ∙ done.same_client);
        },
      )

  pub AtBlocks-Grown :
      {q q' : Planner} (start : ℕ) (vols : List ℕ)
      → Grown q q'
      → start + length vols * 2 ^ k ≤ q.offset
      → AtBlocks q (2 ^ k) start vols
      → AtBlocks q' (2 ^ k) start vols
  AtBlocks-Grown start [] g room h = tt
  AtBlocks-Grown start (vol ∷ vols) g room (at, h) =
      let size : 1024 ≤ 2 ^ k = pow-le-pow_right {n = 2} (omega arith) {i = 10} {j = k} lo in
      let more : suc (length vols) * 2 ^ k ≡ 2 ^ k + length vols * 2 ^ k = grind arith in
      (
        λ j small. g.kept (start + j) (omega arith) ∙ at j small,
        AtBlocks-Grown (start + 2 ^ k) vols g (omega arith) h,
      )

  descriptors :
      (vols : List ℕ) (p : Planner)
      → IsPlanned p
      → p.offset % 2 ^ k ≡ 0
      → p.offset + (length vols + 1) * 2 ^ k < 2 ^ 63
      → (q : Planner) × (plan_descriptors (2 ^ k) vols p ≡ some q)
        × IsPlanned q
        × Grown p q
        × (q.offset ≡ p.offset + length vols * 2 ^ k)
        × SameDevice p q
        × AtBlocks q (2 ^ k) p.offset vols
  unfolding plan_descriptors
  descriptors [] p v start room = (p, refl, v, Grown-refl p, omega arith, (refl, refl), tt)
  descriptors (vol ∷ vols) p v start room =
      let size : 1024 ≤ 2 ^ k = pow-le-pow_right {n = 2} (omega arith) {i = 10} {j = k} lo in
      let more : (suc (length vols) + 1) * 2 ^ k ≡ 2 * 2 ^ k + length vols * 2 ^ k = grind arith in
      let less : (length vols + 1) * 2 ^ k ≡ 2 ^ k + length vols * 2 ^ k = grind arith in
      let (p1, p2, e1, e2, b) = block 883 vol p v (omega arith) (omega arith) start (omega arith) in
      let start' : p2.offset % 2 ^ k ≡ 0 =
        ap (λ t. t % 2 ^ k) b.advanced ∙ add-mod_right p.offset (2 ^ k) ∙ start in
      let (q, e3, v3, g3, end, same, at) =
        descriptors vols p2 b.valid start' (omega (arith, b.advanced)) in
      (
        q,
        rw (e1, e2, e3) refl,
        v3,
        Grown-trans b.grown g3,
        omega (arith, b.advanced, end),
        (same.0 ∙ b.same.0, same.1 ∙ b.same.1),
        (
          λ j h. g3.kept (p.offset + j) (omega (arith, b.advanced)) ∙ b.laid j h,
          subst (λ t. AtBlocks q (2 ^ k) t vols) b.advanced at,
        ),
      )

-- The descriptors of the volumes at their blocks from the planner's offset on, and the last one behind them.
pub Headed : ℕ → List ℕ → ℕ → Planner → Type 0
Headed blk vols end_vol p =
    (q : Planner) × (plan_headers blk vols end_vol p ≡ some (p.offset, q))
    × (q.offset ≡ p.offset + (length vols + 1) * blk)
    × AtBlocks q blk p.offset vols
    × ((j : ℕ)
        → j < 8
        → source_at q.extlist (p.offset + length vols * blk + j) ≡ some (some end_vol, j))

-- planHeaders on a planner: the descriptors of the volumes at their blocks from its offset on, and the
-- last one behind them.
pub record HeadersLaid (blk : ℕ) (vols : List ℕ) (end_vol : ℕ) (p : Planner) : Type 0 where
  pub after : Planner
  pub run : plan_headers blk vols end_vol p ≡ some (p.offset, after)
  pub valid : IsPlanned after
  pub grown : Grown p after
  pub same : SameDevice p after
  pub advanced : after.offset ≡ p.offset + (length vols + 1) * blk
  pub descriptors_at : AtBlocks after blk p.offset vols
  pub end_at :
      (j : ℕ)
      → j < 8
      → source_at after.extlist (p.offset + length vols * blk + j) ≡ some (some end_vol, j)

pub headers_laid :
    (k : ℕ) (vols : List ℕ) (end_vol : ℕ) (p : Planner)
    → 10 ≤ k
    → k < 60
    → IsPlanned p
    → p.offset % 2 ^ k ≡ 0
    → p.offset + (length vols + 2) * 2 ^ k < 2 ^ 63
    → HeadersLaid (2 ^ k) vols end_vol p
unfolding plan_headers
headers_laid k vols end_vol p lo hk v start room =
    let size : 1024 ≤ 2 ^ k = pow-le-pow_right {n = 2} (omega arith) {i = 10} {j = k} lo in
    let two : (length vols + 2) * 2 ^ k ≡ length vols * 2 ^ k + 2 * 2 ^ k = grind arith in
    let one : (length vols + 1) * 2 ^ k ≡ length vols * 2 ^ k + 2 ^ k = grind arith in
    let (p1, e1, v1, g1, end, same, at) = descriptors k lo hk vols p v start (omega arith) in
    let start' : p1.offset % 2 ^ k ≡ 0 =
      ap (λ t. t % 2 ^ k) end ∙ add-mul-mod_self_right p.offset (length vols) (2 ^ k) ∙ start in
    let (p2, q, e2, e3, b) =
      block k lo hk 8 end_vol p1 v1 (omega arith) (omega arith) start' (omega (arith, end)) in
    record {
      after = q;
      run = rw (e1, e2, e3) refl;
      valid = b.valid;
      grown = Grown-trans g1 b.grown;
      same = (b.same.0 ∙ same.0, b.same.1 ∙ same.1);
      advanced = omega (arith, end, b.advanced);
      descriptors_at = AtBlocks-Grown k lo hk p.offset vols b.grown (omega (arith, end)) at;
      end_at = λ j h. ap (λ t. source_at q.extlist (t + j)) (sym end) ∙ b.laid j h;
    }
