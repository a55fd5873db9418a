-- ===== src/Fat/Chain.antt =====
-- VFatMedium: the amendments of a file spell its chain of clusters, and leave those of other files.
use mathlib.Core.Path.{subst}
use fsview.Base.{
  ℕ, ◌+◌, ◌-◌, ◌*◌, ◌%◌, ◌^◌, ◌<◌, ◌≤◌, ◌≡◌, ◌≢◌, ◌∙◌, ◌⊎◌, inl, inr, refl, sym, ap, false, true,
  arith, Option, some, none, List, [], ◌∷◌, ◌++◌, Option-cases, le_or_lt, leb, >>=-eq-some,
}
use fsview.Base.SortedMap.{lookup, lookup-insert}
use fsview.Fat.{VFatMedium, amend, endmark, shadow, set_line, set_next, set_last, set_chain}

abbrev pub Runs : Type 0
Runs = List (ℕ × ℕ)

-- What the table holds for a cluster: its amendment, or the rule, which is the next cluster.
abbrev word : ℕ → Option ℕ → ℕ
word i none = (i + 1) % 2 ^ 32
word i (some v) = v

unfoldable pub entry : VFatMedium → ℕ → ℕ
entry fat i = word i (lookup (i * 4) fat.amendments)

-- A run apart from others.
abbrev pub Apart : ℕ → ℕ → Runs → Type 0
Apart f l [] = Unit
Apart f l ((f', l') ∷ rest) = ((l < f') ⊎ (l' < f)) × Apart f l rest

abbrev pub AreRuns : Runs → Type 0
AreRuns [] = Unit
AreRuns ((f, l) ∷ rest) = (f ≤ l) × Apart f l rest × AreRuns rest

abbrev pub next_of : Runs → ℕ
next_of [] = endmark
next_of ((f, l) ∷ rest) = f

-- No amendment inside of the runs, and at each end the link to what follows.
abbrev Chained : VFatMedium → Runs → Type 0
Chained fat [] = Unit
Chained fat ((f, l) ∷ rest) =
    ((i : ℕ) → f ≤ i → i < l → lookup (i * 4) fat.amendments ≡ none)
    × (lookup (l * 4) fat.amendments ≡ some (next_of rest % 2 ^ 32))
    × Chained fat rest

lookup-amend_same :
    (i v : ℕ) (fat : VFatMedium)
    → lookup (i * 4) (amend (i * 4) v fat).amendments ≡ some (v % 2 ^ 32)
lookup-amend_same i v fat =
    ground (arith, lookup-insert (i * 4) (i * 4) (v % 2 ^ 32) fat.amendments)

lookup-amend_other :
    (i j v : ℕ) (fat : VFatMedium)
    → i ≢ j
    → lookup (i * 4) (amend (j * 4) v fat).amendments ≡ lookup (i * 4) fat.amendments
lookup-amend_other i j v fat ne =
    ground (arith, lookup-insert (j * 4) (i * 4) (v % 2 ^ 32) fat.amendments)

clash : (v : ℕ) → some v ≡ none → ⊥
clash v e = cc

-- What the terminating amendment before a run leaves alone.
lookup-shadow_other :
    (i f : ℕ) (fat : VFatMedium)
    → i + 1 ≢ f
    → lookup (i * 4) (shadow f fat).amendments ≡ lookup (i * 4) fat.amendments
unfolding shadow
lookup-shadow_other i f fat ne = elim (le_or_lt f 2) [
  | inl small ↦ let skip : leb f 2 ≡ true = ground arith in rw skip refl
  | inr big ↦
      let go : leb f 2 ≡ false = ground arith in
      elim (Option-cases (lookup ((f - 1) * 4) fat.amendments)) [
        | inl free ↦
            rw (go, free) (lookup-amend_other i (f - 1) endmark fat (λ e. ne (omega arith)))
        | inr (v, taken) ↦ rw (go, taken) refl
      ]
]

lookup-shadow-some :
    (i f v : ℕ) (fat : VFatMedium)
    → lookup (i * 4) fat.amendments ≡ some v
    → lookup (i * 4) (shadow f fat).amendments ≡ some v
unfolding shadow
lookup-shadow-some i f v fat e = elim (le_or_lt f 2) [
  | inl small ↦ let skip : leb f 2 ≡ true = ground arith in rw skip e
  | inr big ↦
      let go : leb f 2 ≡ false = ground arith in
      elim (Option-cases (lookup ((f - 1) * 4) fat.amendments)) [
        | inl free ↦
            let apart : i ≢ f - 1 = λ (same : i ≡ f - 1). clash v (sym (rw same at e) ∙ free) in
            rw (go, free) (lookup-amend_other i (f - 1) endmark fat apart ∙ e)
        | inr (w, taken) ↦ rw (go, taken) e
      ]
]

favor-shadow : (f : ℕ) (fat : VFatMedium) → (shadow f fat).favor_freespace ≡ fat.favor_freespace
unfolding shadow
favor-shadow f fat = elim (le_or_lt f 2) [
  | inl small ↦ let skip : leb f 2 ≡ true = ground arith in rw skip refl
  | inr big ↦
      let go : leb f 2 ≡ false = ground arith in
      elim (Option-cases (lookup ((f - 1) * 4) fat.amendments)) [
        | inl free ↦ rw (go, free) refl
        | inr (w, taken) ↦ rw (go, taken) refl
      ]
]

set_line-shadow :
    (f l : ℕ) (fat : VFatMedium) → fat.favor_freespace ≡ false → set_line f l fat ≡ shadow f fat
unfolding set_line
set_line-shadow f l fat e = rw e refl

set_next_inv :
    (l n : ℕ) (fat : VFatMedium) {fat' : VFatMedium}
    → set_next l n fat ≡ some fat'
    → amend (l * 4) n fat ≡ fat'
unfolding set_next
set_next_inv l n fat e = ground arith

-- A cluster that no run ends at, and one before which no run begins either.
abbrev pub NotEnd : ℕ → Runs → Type 0
NotEnd i [] = Unit
NotEnd i ((f, l) ∷ rest) = (i ≢ l) × NotEnd i rest

abbrev Untouched : ℕ → Runs → Type 0
Untouched i [] = Unit
Untouched i ((f, l) ∷ rest) = (i ≢ l) × (i + 1 ≢ f) × Untouched i rest

-- No amendment inside of the runs.
abbrev pub Clear : VFatMedium → Runs → Type 0
Clear fat [] = Unit
Clear fat ((f, l) ∷ rest) =
    ((i : ℕ) → f ≤ i → i < l → lookup (i * 4) fat.amendments ≡ none) × Clear fat rest

record Linked (fat fat' : VFatMedium) (runs : Runs) : Type 0 where
  favor : fat'.favor_freespace ≡ false
  chained : Chained fat' runs
  frame :
      (i : ℕ) → Untouched i runs → lookup (i * 4) fat'.amendments ≡ lookup (i * 4) fat.amendments
  kept :
      (i v : ℕ)
      → NotEnd i runs
      → lookup (i * 4) fat.amendments ≡ some v
      → lookup (i * 4) fat'.amendments ≡ some v

Apart-Untouched :
    (f l i : ℕ) (rest : Runs) → f ≤ i → i < l → AreRuns rest → Apart f l rest → Untouched i rest
Apart-Untouched f l i [] h1 h2 r a = tt
Apart-Untouched f l i ((f', l') ∷ rest) h1 h2 (le, r1, r2) (a, more) =
    ((λ e. ground arith), (λ e. ground arith), Apart-Untouched f l i rest h1 h2 r2 more)

-- One more run in front of a chain.
Chained-linked :
    (f l n : ℕ) (runs : Runs) (fat : VFatMedium)
    → f ≤ l
    → AreRuns runs
    → Apart f l runs
    → Chained fat runs
    → Chained (amend (l * 4) n (shadow f fat)) runs
Chained-linked f l n [] fat le r a c = tt
Chained-linked f l n ((f', l') ∷ rest) fat le (le', r1, r2) (a, more) (c1, c2, c3) = (
  (λ i h1 h2.
      lookup-amend_other i l n (shadow f fat) (λ e. ground arith)
      ∙ lookup-shadow_other i f fat (λ e. ground arith)
      ∙ c1 i h1 h2),
  (lookup-amend_other l' l n (shadow f fat) (λ e. ground arith) ∙ lookup-shadow-some l' f _ fat c2),
  Chained-linked f l n rest fat le r2 more c3,
)

Linked-cons :
    (f l n : ℕ) (runs : Runs) (fat fat1 : VFatMedium)
    → n ≡ next_of runs
    → f ≤ l
    → AreRuns runs
    → Apart f l runs
    → Clear fat ((f, l) ∷ runs)
    → Linked fat fat1 runs
    → Linked fat (amend (l * 4) n (shadow f fat1)) ((f, l) ∷ runs)
Linked-cons f l n runs fat fat1 same le r a clear h = record {
  favor = favor-shadow f fat1 ∙ h.favor;
  chained = (
    (λ i h1 h2.
        lookup-amend_other i l n (shadow f fat1) (λ e. omega arith)
        ∙ lookup-shadow_other i f fat1 (λ e. omega arith)
        ∙ h.frame i (Apart-Untouched f l i runs h1 h2 r a)
        ∙ clear.0 i h1 h2),
    lookup-amend_same l n (shadow f fat1) ∙ ap (λ k. some (k % 2 ^ 32)) same,
    Chained-linked f l n runs fat1 le r a h.chained,
  );
  frame = λ i (h1, h2, h3).
      lookup-amend_other i l n (shadow f fat1) h1 ∙ lookup-shadow_other i f fat1 h2 ∙ h.frame i h3;
  kept = λ i v (h1, h2) e.
      lookup-amend_other i l n (shadow f fat1) h1 ∙ lookup-shadow-some i f v fat1 (h.kept i v h2 e);
}

set_chain-Linked :
    (runs : Runs) (fat : VFatMedium) {fat' : VFatMedium}
    → fat.favor_freespace ≡ false
    → AreRuns runs
    → Clear fat runs
    → set_chain runs fat ≡ some fat'
    → Linked fat fat' runs
unfolding set_chain
set_chain-Linked [] fat {fat'} favor r clear e =
    let same : fat ≡ fat' = cc in
    subst (λ t. Linked fat t []) same
      (record { favor = favor; chained = tt; frame = λ i h. refl; kept = λ i v h e. e })
set_chain-Linked ((f, l) ∷ []) fat {fat'} favor (le, a, r) clear e =
    let line = set_line-shadow f l fat favor in
    let e' : set_next l endmark (shadow f fat) ≡ some fat' = unfold set_last in rw line at e in
    let base : Linked fat fat [] = record {
      favor = favor;
      chained = tt;
      frame = λ i h. refl;
      kept = λ i v h e. e;
    } in
    subst (λ t. Linked fat t ((f, l) ∷ [])) (set_next_inv l endmark (shadow f fat) e')
      (Linked-cons f l endmark [] fat fat refl le tt tt clear base)
set_chain-Linked ((f, l) ∷ (f', l') ∷ rest) fat {fat'} favor (le, a, r) clear e =
    let (fat1, e1, e2) = >>=-eq-some (set_chain ((f', l') ∷ rest) fat) _ e in
    let ih = set_chain-Linked ((f', l') ∷ rest) fat favor r (clear.1) e1 in
    let line = set_line-shadow f l fat1 ih.favor in
    let e' : set_next l f' (shadow f fat1) ≡ some fat' = rw line at e2 in
    subst (λ t. Linked fat t ((f, l) ∷ (f', l') ∷ rest)) (set_next_inv l f' (shadow f fat1) e')
      (Linked-cons f l f' ((f', l') ∷ rest) fat fat1 refl le r a clear ih)

Chained-suffix :
    (fat : VFatMedium) (before after : Runs) → Chained fat (before ++ after) → Chained fat after
Chained-suffix fat [] after h = h
Chained-suffix fat ((f, l) ∷ before) after (h1, h2, h3) = Chained-suffix fat before after h3

-- Once the extents of a file, apart from each other and free of amendments inside, are linked in the
-- table of a read-only disk, each cluster of an extent but the last leads to the next cluster, and
-- the last one, also of an extent of one cluster, leads to the first cluster of the next extent, or
-- ends the file.
pub set_chain_spells :
    (before after : Runs) (f l : ℕ) (fat : VFatMedium) {fat' : VFatMedium}
    → fat.favor_freespace ≡ false
    → AreRuns (before ++ (f, l) ∷ after)
    → Clear fat (before ++ (f, l) ∷ after)
    → set_chain (before ++ (f, l) ∷ after) fat ≡ some fat'
    → ((i : ℕ) → f ≤ i → i < l → entry fat' i ≡ (i + 1) % 2 ^ 32)
      × (entry fat' l ≡ next_of after % 2 ^ 32)
unfolding entry
set_chain_spells before after f l fat {fat'} favor r clear e =
    let linked = set_chain-Linked (before ++ (f, l) ∷ after) fat favor r clear e in
    let (inner, last, rest) = Chained-suffix fat' before ((f, l) ∷ after) linked.chained in
    (λ i le lt. rw (inner i le lt) refl, rw last refl)

-- In the table of a read-only disk, linking a file whose extents are apart and free of amendments
-- inside leaves the entry of every cluster that is amended already, but the clusters at which
-- extents of the file end.
pub set_chain_keeps :
    (runs : Runs) (i v : ℕ) (fat : VFatMedium) {fat' : VFatMedium}
    → fat.favor_freespace ≡ false
    → AreRuns runs
    → Clear fat runs
    → set_chain runs fat ≡ some fat'
    → NotEnd i runs
    → lookup (i * 4) fat.amendments ≡ some v
    → (entry fat' i ≡ v) × (entry fat i ≡ v)
unfolding entry
set_chain_keeps runs i v fat {fat'} favor r clear e ne known =
    let linked = set_chain-Linked runs fat favor r clear e in
    (rw (linked.kept i v ne known) refl, rw known refl)
