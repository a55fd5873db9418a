-- ===== src/Text/Legal.antt =====
-- CMapDeco over a map whose replacements hold legal characters only.
use fsview.Base.{
  ℕ, ◌≡◌, ◌∙◌, refl, sym, Bool, true, false, ◌&&◌, not, List, [], ◌∷◌, ◌++◌, some, none, Option,
  arith, All, All-append, >>=-eq-some, inl, inr, Option-cases, Bool-cases, ◌==◌,
}
use fsview.Base.SortedMap.{lookup}
use fsview.Text.{Unicode, map_deco, correct, is_some}
use fsview.Text.Correct.{
  one_pass, one_pass_bad, one_pass_good, replace_all, is_illegal, map_deco-one_pass,
}

-- No character of a string is in the map.
abbrev pub AllLegal : List (ℕ × Unicode) → Unicode → Type 0
AllLegal m s = All (λ c. lookup c m ≡ none) s

abbrev pub RepairsTo : List (ℕ × Unicode) → Type 0
RepairsTo m = (c : ℕ) (v : Unicode) → lookup c m ≡ some v → AllLegal m v

unfoldable pub all_legal : List (ℕ × Unicode) → Unicode → Bool
all_legal m [] = true
all_legal m (c ∷ cs) = not (is_some (lookup c m)) && all_legal m cs

unfoldable pub values_legal : List (ℕ × Unicode) → List (ℕ × Unicode) → Bool
unfolding all_legal
values_legal m [] = true
values_legal m ((k, v) ∷ rest) = all_legal m v && values_legal m rest

not_some : (o : Option Unicode) → not (is_some o) ≡ true → o ≡ none
not_some none e = refl
not_some (some v) e = cc

&&-left : (a b : Bool) → (a && b) ≡ true → (a ≡ true) × (b ≡ true)
&&-left true b e = (refl, e)
&&-left false b e = cc

all_legal-AllLegal : (m : List (ℕ × Unicode)) (s : Unicode) → all_legal m s ≡ true → AllLegal m s
unfolding all_legal
all_legal-AllLegal m [] e = tt
all_legal-AllLegal m (c ∷ cs) e =
    let (h, t) = &&-left (not (is_some (lookup c m))) (all_legal m cs) e in
    (not_some (lookup c m) h, all_legal-AllLegal m cs t)

pub values_legal-RepairsTo :
    (m rest : List (ℕ × Unicode)) (c : ℕ) (v : Unicode)
    → values_legal m rest ≡ true
    → lookup c rest ≡ some v
    → AllLegal m v
unfolding values_legal lookup
values_legal-RepairsTo m [] c v e f = cc
values_legal-RepairsTo m ((k, w) ∷ rest) c v e f =
    let (h, t) = &&-left (all_legal m w) (values_legal m rest) e in
    let ih = values_legal-RepairsTo m rest c v t in
    elim (Bool-cases (c == k)) [
      | inl same ↦ let g : w ≡ v = ground arith in rw (← g) (all_legal-AllLegal m w h)
      | inr other ↦ ih (ground arith)
    ]

module _ (m : List (ℕ × Unicode)) (repairs : RepairsTo m) where
  replace_all-AllLegal : (s t : Unicode) → replace_all (λ c. lookup c m) s ≡ some t → AllLegal m t
  unfolding replace_all
  replace_all-AllLegal [] t e = let same : [] ≡ t = cc in rw (← same) tt
  replace_all-AllLegal (c ∷ cs) t e =
      let (v, ev, e1) = >>=-eq-some (lookup c m) _ e in
      let (r, er, e2) = >>=-eq-some (replace_all (λ d. lookup d m) cs) _ e1 in
      let same : v ++ r ≡ t = cc in
      rw (← same) (All-append _ v r (repairs c v ev) (replace_all-AllLegal cs r er))

  one_pass-AllLegal :
      (s t : Unicode) → one_pass (is_illegal m) (λ c. lookup c m) s ≡ some t → AllLegal m t
  one_pass-AllLegal [] t e = let same : [] ≡ t = unfold one_pass in cc in rw (← same) tt
  one_pass-AllLegal (c ∷ cs) t e =
      let ih = one_pass-AllLegal cs in
      elim (Option-cases (lookup c m)) [
        | inl legal ↦
            let good : is_illegal m c ≡ false = rw legal refl in
            let (r, er, e1) =
              >>=-eq-some (one_pass (is_illegal m) (λ d. lookup d m) cs) _
                (sym (one_pass_good (is_illegal m) (λ d. lookup d m) c cs good) ∙ e) in
            let same : c ∷ r ≡ t = cc in rw (← same) (legal, ih r er)
        | inr (v, known) ↦
            let bad : is_illegal m c ≡ true = rw known refl in
            replace_all-AllLegal (c ∷ cs) t
              (sym (one_pass_bad (is_illegal m) (λ d. lookup d m) c cs bad) ∙ e)
      ]

  AllLegal-one_pass :
      (t : Unicode) → AllLegal m t → one_pass (is_illegal m) (λ c. lookup c m) t ≡ some t
  AllLegal-one_pass [] h = unfold one_pass in refl
  AllLegal-one_pass (c ∷ cs) (hc, h) =
      let ih = AllLegal-one_pass cs h in
      let good : is_illegal m c ≡ false = rw hc refl in
      one_pass_good (is_illegal m) (λ d. lookup d m) c cs good ∙ rw ih refl

  -- What a correction by such a map answers holds legal characters only, and stays as it is.
  pub correct_repairs :
      (s t : Unicode)
      → correct (map_deco m) s ≡ some t
      → AllLegal m t × (correct (map_deco m) t ≡ some t)
  correct_repairs s t e =
      let legal : AllLegal m t = one_pass-AllLegal s t (sym (map_deco-one_pass m s) ∙ e) in
      (legal, map_deco-one_pass m t ∙ AllLegal-one_pass t legal)
