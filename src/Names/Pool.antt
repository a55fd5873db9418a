-- ===== src/Names/Pool.antt =====
-- NamePool: a name that is handed out stands for one link only.
use fsview.Base.{
  ℕ, zero, suc, ◌+◌, ◌≡◌, ◌≢◌, ◌∙◌, refl, sym, Bool, true, false, [], ◌∷◌, some, none, arith,
  Option-cases, Bool-cases, inl, inr, ◌==◌, length, eq_or_ne,
}
use mathlib.Core.Path.{subst}
use fsview.Text.{Unicode}
use fsview.Names.{
  NameRule, UniqName, NamePool, NameMap, same_name, find_name, put_name, mix_in_var, translit,
  uniq_name, try_existing, try_brand_new, vary, fit_base,
}

same_name_refl : (a : Unicode) → same_name a a ≡ true
unfolding same_name
same_name_refl [] = refl
same_name_refl (c ∷ cs) = ground (arith, same_name_refl cs)

pub same_name-eq : (a b : Unicode) → same_name a b ≡ true → a ≡ b
unfolding same_name
same_name-eq [] [] e = refl
same_name-eq [] (d ∷ ds) e = cc
same_name-eq (c ∷ cs) [] e = cc
same_name-eq (c ∷ cs) (d ∷ ds) e = ground (arith, same_name-eq cs ds)

find_name-put_self : (k v : Unicode) (m : NameMap) → find_name k (put_name k v m) ≡ some v
unfolding find_name
find_name-put_self k v m = rw (same_name_refl k) refl

pub find_name-put_other :
    (k j v : Unicode) (m : NameMap)
    → same_name k j ≡ false
    → find_name k (put_name j v m) ≡ find_name k m
unfolding find_name
find_name-put_other k j v m e = rw e refl

-- The link that a name was last given to is the link that the name was registered under.
abbrev pub IsPool : NamePool → Type 0
IsPool pool =
    (l c : Unicode)
    → find_name l pool.link_to_conv ≡ some c
    → find_name c pool.conv_to_link ≡ some l

same_value : {c d : Unicode} → some c ≡ some d → c ≡ d
same_value e = cc

none-some : (l : Unicode) → none ≡ some l → ⊥
none-some l e = cc

abbrev pub joined : UniqName → NamePool → NamePool
joined name pool = record {
  conv_to_link = put_name name.conv name.link pool.conv_to_link;
  link_to_conv = put_name name.link name.conv pool.link_to_conv;
}

joined-IsPool :
    (pool : NamePool) (name : UniqName)
    → find_name name.conv pool.conv_to_link ≡ none
    → IsPool pool
    → IsPool (joined name pool)
joined-IsPool pool name fresh v l c e = elim (Bool-cases (same_name l name.link)) [
  | inl here ↦
      let same_l : l ≡ name.link = same_name-eq l name.link here in
      let shown : find_name l (joined name pool).link_to_conv ≡ some name.conv =
        rw same_l (find_name-put_self name.link name.conv pool.link_to_conv) in
      let same_c : name.conv ≡ c = same_value (sym shown ∙ e) in
      rw (← same_c, same_l) (find_name-put_self name.conv name.link pool.conv_to_link)
  | inr there ↦
      let old : find_name l pool.link_to_conv ≡ some c =
        sym (find_name-put_other l name.link name.conv pool.link_to_conv there) ∙ e in
      elim (Bool-cases (same_name c name.conv)) [
        | inl clash ↦
            let same : c ≡ name.conv = same_name-eq c name.conv clash in
            let taken : find_name name.conv pool.conv_to_link ≡ some l = rw (← same) (v l c old) in
            absurd (none-some l (sym fresh ∙ taken))
        | inr apart ↦ find_name-put_other c name.conv name.link pool.conv_to_link apart ∙ v l c old
      ]
]

-- What fitName establishes before the decoration.
record Fitted (name : UniqName) (pool : NamePool) : Type 0 where
  valid : IsPool pool
  known : find_name name.conv pool.conv_to_link ≡ some name.link

vary_lem :
    (fuel : ℕ) (rule : NameRule) (shuf : ℕ → ℕ) (attempt : ℕ) (pool : NamePool) (name : UniqName)
    (r : UniqName × NamePool)
    → IsPool pool
    → vary fuel rule shuf attempt pool name ≡ some r
    → Fitted r.0 r.1
unfolding vary try_brand_new
vary_lem zero rule shuf attempt pool name r v e = cc
vary_lem (suc fuel) rule shuf attempt pool name r v e =
    let tried : UniqName = mix_in_var rule (shuf attempt) name in
    let ih = vary_lem fuel rule shuf (attempt + 1) pool tried r v in
    elim (Option-cases (find_name tried.conv pool.conv_to_link)) [
      | inl fresh ↦
          let got : some (tried, joined tried pool) ≡ some r = rw fresh at e in
          let same : (tried, joined tried pool) ≡ r = cc in
          subst (λ (s : UniqName × NamePool). Fitted s.0 s.1) same
            (record {
              valid = joined-IsPool pool tried fresh v;
              known = find_name-put_self tried.conv tried.link pool.conv_to_link;
            })
      | inr (l, taken) ↦ ih (rw taken at e)
    ]

try_existing-known :
    (pool : NamePool) (name : UniqName)
    → IsPool pool
    → name.conv ≡ []
    → length (try_existing pool name).conv ≢ 0
    → find_name ((try_existing pool name).conv) pool.conv_to_link
      ≡ some ((try_existing pool name).link)
unfolding try_existing
try_existing-known pool name v empty ne = elim (eq_or_ne (length name.link) 0) [
  | inl e ↦
      let none_yet : length (try_existing pool name).conv ≡ 0 = rw (e, empty) refl in
      absurd (ne none_yet)
  | inr more ↦
      let linked : (length name.link == 0) ≡ false = ground arith in
      elim (Option-cases (find_name name.link pool.link_to_conv)) [
        | inl unknown ↦
            let none_yet : length (try_existing pool name).conv ≡ 0 =
              rw (linked, unknown, empty) refl in
            absurd (ne none_yet)
        | inr (c, known) ↦ rw (linked, known) (v name.link c known)
      ]
]

fit_base_lem :
    (fuel : ℕ) (rule : NameRule) (shuf : ℕ → ℕ) (orig : Unicode) (file : Bool) (pool : NamePool)
    (r : UniqName × NamePool)
    → IsPool pool
    → fit_base fuel rule shuf orig file pool ≡ some r
    → Fitted r.0 r.1
unfolding fit_base
fit_base_lem fuel rule shuf orig file pool r v e =
    let start : UniqName = translit rule (uniq_name orig file) in
    let found : UniqName = try_existing pool start in
    elim (eq_or_ne (length found.conv) 0) [
      | inl new ↦ vary_lem fuel rule shuf 0 pool found r v (ground arith)
      | inr old ↦
          let busy : (length found.conv == 0) ≡ false = ground arith in
          let got : some (found, pool) ≡ some r = rw busy at e in
          let same : (found, pool) ≡ r = cc in
          let empty : start.conv ≡ [] = unfold translit in refl in
          subst (λ (s : UniqName × NamePool). Fitted s.0 s.1) same
            (record { valid = v; known = try_existing-known pool start v empty old })
    ]

-- From a consistent pool, a name that fitName gives out before its decoration belongs to the link
-- of the answer alone: any link of the pool that has this name is that link. The pool stays
-- consistent.
pub fit_base_unique :
    (fuel : ℕ) (rule : NameRule) (shuf : ℕ → ℕ) (orig : Unicode) (file : Bool) (pool : NamePool)
    (l : Unicode) {name : UniqName} {pool' : NamePool}
    → IsPool pool
    → fit_base fuel rule shuf orig file pool ≡ some (name, pool')
    → find_name l pool'.link_to_conv ≡ some name.conv
    → IsPool pool' × (l ≡ name.link)
fit_base_unique fuel rule shuf orig file pool l {name} {pool'} v e other =
    let done = fit_base_lem fuel rule shuf orig file pool (name, pool') v e in
    (done.valid, same_value (sym (done.valid l name.conv other) ∙ done.known))
