-- ===== src/Names/Ends.antt =====
-- The loop of NamePool::fitName and the names that its pool holds already.
use fsview.Base.{
  ℕ, zero, suc, ◌+◌, ◌^◌, ◌<◌, ◌≤◌, ◌≡◌, ◌≢◌, ◌∙◌, ◌⊎◌, refl, sym, ap, Bool, false, [], ◌∷◌, ◌++◌,
  some, none, arith, Option-cases, Bool-cases, inl, inr, ◌==◌, ltb, if◌then◌else◌, length, drop,
  take, min, eq_or_ne, drop-append_left,
}
use fsview.Base.Words.{sub64}
use fsview.Text.{Unicode}
use fsview.Names.{
  NameRule, UniqName, NamePool, NameMap, same_name, find_name, mix_in_var, translit, uniq_name,
  try_existing, try_brand_new, vary, fit_base, decimal,
}
use fsview.Names.Pool.{same_name-eq, find_name-put_other, joined}
use fsview.Names.Rule.{read_decimal, read-itoa}

-- All of the first n values are different.
abbrev pub Differ {ℓ} : {A : Type ℓ} → (ℕ → A) → ℕ → Type ℓ
Differ f n = (i j : ℕ) → i < n → j < n → f i ≡ f j → i ≡ j

-- The row of values without the one at `hole`.
abbrev around : {A : Type 0} → (ℕ → A) → ℕ → ℕ → A
around f hole i = f (if ltb i hole then i else i + 1)

around-Differ : {A : Type 0} (f : ℕ → A) (hole n : ℕ) → Differ f (suc n) → Differ (around f hole) n
around-Differ f hole n h i j li lj e =
    let same =
      h (if ltb i hole then i else i + 1) (if ltb j hole then j else j + 1) (ground arith)
        (ground arith) e in
    ground arith

where_is :
    (f : ℕ → Unicode) (k : Unicode) (n : ℕ)
    → ((hole : ℕ) × (hole < n) × (f hole ≡ k)) ⊎ ((i : ℕ) → i < n → same_name (f i) k ≡ false)
where_is f k zero = inr (λ i lt. absurd (omega arith))
where_is f k (suc n) = elim (where_is f k n) [
  | inl (hole, lt, e) ↦ inl (hole, omega arith, e)
  | inr apart ↦ elim (Bool-cases (same_name (f n) k)) [
    | inl here ↦ inl (n, omega arith, same_name-eq (f n) k here)
    | inr ne ↦
        inr (λ i lt. elim (eq_or_ne i n) [ inl e ↦ rw e ne | inr other ↦ apart i (omega arith) ])
  ]
]

-- More different names than a map has entries: one of them is not in it.
some_free :
    (m : NameMap) (f : ℕ → Unicode)
    → Differ f (suc (length m))
    → (i : ℕ) × (i < suc (length m)) × (find_name (f i) m ≡ none)
unfolding find_name
some_free [] f h = (0, omega arith, refl)
some_free ((k, v) ∷ m) f h = elim (where_is f k (suc (suc (length m)))) [
  | inr apart ↦
      let (i, lt, free) = some_free m f (λ i j li lj e. h i j (omega arith) (omega arith) e) in
      (i, omega arith, find_name-put_other (f i) k v m (apart i (omega arith)) ∙ free)
  | inl (hole, below, at_hole) ↦
      let (i, lt, free) = some_free m (around f hole) (around-Differ f hole (suc (length m)) h) in
      let place : ℕ = if ltb i hole then i else i + 1 in
      let inside : place < suc (suc (length m)) = ground arith in
      elim (Bool-cases (same_name (f place) k)) [
        | inl same ↦
            let met : place ≡ hole =
              h place hole inside below (same_name-eq (f place) k same ∙ sym at_hole) in
            absurd (ground arith)
        | inr apart ↦ (place, inside, find_name-put_other (f place) k v m apart ∙ free)
      ]
]

vary_total :
    (fuel i : ℕ) (rule : NameRule) (shuf : ℕ → ℕ) (attempt : ℕ) (pool : NamePool) (name : UniqName)
    → i < fuel
    → find_name ((mix_in_var rule (shuf (attempt + i)) name).conv) pool.conv_to_link ≡ none
    → (r : UniqName × NamePool) × (vary fuel rule shuf attempt pool name ≡ some r)
unfolding vary try_brand_new
vary_total zero i rule shuf attempt pool name lt fresh = absurd (omega arith)
vary_total (suc fuel) zero rule shuf attempt pool name lt fresh =
    let tried : UniqName = mix_in_var rule (shuf attempt) name in
    let index : attempt + 0 ≡ attempt = omega arith in
    let now : find_name tried.conv pool.conv_to_link ≡ none = rw index at fresh in
    ((tried, joined tried pool), rw now refl)
vary_total (suc fuel) (suc i) rule shuf attempt pool name lt fresh =
    let tried : UniqName = mix_in_var rule (shuf attempt) name in
    let index : attempt + suc i ≡ attempt + 1 + i = omega arith in
    let later : find_name ((mix_in_var rule (shuf (attempt + 1 + i)) tried).conv) pool.conv_to_link
        ≡ none =
      unfold mix_in_var in rw index at fresh in
    let ih = vary_total fuel i rule shuf (attempt + 1) pool tried (omega arith) later in
    elim (Option-cases (find_name tried.conv pool.conv_to_link)) [
      | inl now ↦ ((tried, joined tried pool), rw now refl)
      | inr (l, taken) ↦ rw taken ih
    ]

module _ (fuel : ℕ) (rule : NameRule) (shuf : ℕ → ℕ) (orig : Unicode) (file : Bool)
    (pool : NamePool) where
  fit_base_new :
      length (try_existing pool (translit rule (uniq_name orig file))).conv ≡ 0
      → fit_base fuel rule shuf orig file pool
        ≡ vary fuel rule shuf 0 pool (try_existing pool (translit rule (uniq_name orig file)))
  unfolding fit_base
  fit_base_new e = rw e refl

  fit_base_old :
      length (try_existing pool (translit rule (uniq_name orig file))).conv ≢ 0
      → fit_base fuel rule shuf orig file pool
        ≡ some (try_existing pool (translit rule (uniq_name orig file)), pool)
  unfolding fit_base
  fit_base_old ne =
      let busy : (length (try_existing pool (translit rule (uniq_name orig file))).conv == 0)
          ≡ false =
        ground arith in
      rw busy refl

append_cancel : (p : Unicode) {a b : Unicode} → p ++ a ≡ p ++ b → a ≡ b
append_cancel p {a} {b} e =
    sym (drop-append_left (length p) p a refl)
    ∙ ap (drop (length p)) e
    ∙ drop-append_left (length p) p b refl

-- Different variants of as many digits give different bases.
mix_in_var-apart :
    (rule : NameRule) (name : UniqName) (v w : ℕ)
    → v < 10 ^ 10
    → w < 10 ^ 10
    → length (decimal 10 v []) ≡ length (decimal 10 w [])
    → (mix_in_var rule v name).conv ≡ (mix_in_var rule w name).conv
    → v ≡ w
unfolding mix_in_var
mix_in_var-apart rule name v w hv hw as_long e =
    let part : ℕ → ℕ = λ n. min (length name.link) (sub64 rule.m_base n) in
    let same_part = ap (λ n. take (part n) name.tran ++ decimal 10 w []) as_long in
    let digits =
      append_cancel (take (part (length (decimal 10 v []))) name.tran) (e ∙ sym same_part) in
    sym (read-itoa v hv) ∙ ap (read_decimal 0) digits ∙ read-itoa w hw

-- The loop of fitName ends with a name, whatever names the pool holds, where more of its attempts
-- than the pool has names get variants that all differ and have as many digits as each other, ten at
-- most.
pub fit_base_ends :
    (fuel width : ℕ) (chosen : ℕ → ℕ) (rule : NameRule) (shuf : ℕ → ℕ) (orig : Unicode)
    (file : Bool) (pool : NamePool)
    → ((i : ℕ) → i ≤ length pool.conv_to_link → chosen i < fuel)
    → Differ (λ i. shuf (chosen i)) (suc (length pool.conv_to_link))
    → ((i : ℕ)
        → i ≤ length pool.conv_to_link
        → (shuf (chosen i) < 10 ^ 10) × (length (decimal 10 (shuf (chosen i)) []) ≡ width))
    → (name : UniqName) × (pool' : NamePool) × (fit_base fuel rule shuf orig file pool
        ≡ some (name, pool'))
fit_base_ends fuel width chosen rule shuf orig file pool lt differ as_long =
    let found : UniqName = try_existing pool (translit rule (uniq_name orig file)) in
    let base : ℕ → Unicode = λ i. (mix_in_var rule (shuf (chosen i)) found).conv in
    let (i, below, free) = some_free pool.conv_to_link base (λ i j li lj e.
      let (small_i, long_i) = as_long i (omega arith) in
      let (small_j, long_j) = as_long j (omega arith) in
      differ i j li lj (
        mix_in_var-apart rule found (shuf (chosen i)) (shuf (chosen j)) small_i small_j
          (long_i ∙ sym long_j) e)) in
    elim (eq_or_ne (length found.conv) 0) [
      | inl new ↦
          let index : 0 + chosen i ≡ chosen i = omega arith in
          let (r, e) =
            vary_total fuel (chosen i) rule shuf 0 pool found (lt i (omega arith))
              (rw index free) in
          (r.0, r.1, fit_base_new fuel rule shuf orig file pool new ∙ e)
      | inr old ↦ (found, pool, fit_base_old fuel rule shuf orig file pool old)
    ]
