-- ===== src/Cd/Folders/Waiting.antt =====
-- What waits for the place of a folder: the lists of the map `parents`.
use mathlib.Core.Path.{subst}
use fsview.Base.{
  ℕ, ◌≡◌, ◌≢◌, sym, ◌∙◌, ◌⊎◌, inl, inr, arith, List, [], ◌∷◌, ◌++◌, eq_or_ne, All, All-append,
}
use fsview.Base.SortedMap.{insert, lookup_or, lookup_or-insert}
use fsview.Cd.Folders.{Use}
use fsview.Cd.Folders.Links.{HasUse}

abbrev pub HasNone : ℕ → List Use → Type 0
HasNone p uses = All (λ (u : Use). u.use_of ≢ p) uses

-- Nothing waits for the folder p but in the list of its parent q.
abbrev pub OnlyIn : ℕ → ℕ → List (ℕ × List Use) → Type 0
OnlyIn p q parents = (k : ℕ) → k ≢ q → HasNone p (lookup_or k [] parents)

pub HasUse-right : (p : ℕ) (uses : List Use) (u : Use) → u.use_of ≡ p → HasUse p (uses ++ (u ∷ []))
HasUse-right p [] u h = inl h
HasUse-right p (x ∷ uses) u h = inr (HasUse-right p uses u h)

HasUse-left : (p : ℕ) (uses more : List Use) → HasUse p uses → HasUse p (uses ++ more)
HasUse-left p [] more h = absurd h
HasUse-left p (x ∷ uses) more (inl h) = inl h
HasUse-left p (x ∷ uses) more (inr h) = inr (HasUse-left p uses more h)

-- `m[k]` after a push_back at j.
pub pushed_here :
    (j : ℕ) (u : Use) (m : List (ℕ × List Use))
    → lookup_or j [] (insert j (lookup_or j [] m ++ (u ∷ [])) m) ≡ lookup_or j [] m ++ (u ∷ [])
pushed_here j u m = lookup_or-insert j j (lookup_or j [] m ++ (u ∷ [])) [] m ∙ ground arith

pushed_elsewhere :
    (j k : ℕ) (u : Use) (m : List (ℕ × List Use))
    → k ≢ j
    → lookup_or k [] (insert j (lookup_or j [] m ++ (u ∷ [])) m) ≡ lookup_or k [] m
pushed_elsewhere j k u m h = lookup_or-insert j k (lookup_or j [] m ++ (u ∷ [])) [] m ∙ ground arith

pub pushed-OnlyIn :
    (p q j : ℕ) (u : Use) (m : List (ℕ × List Use))
    → (u.use_of ≢ p) ⊎ (j ≡ q)
    → OnlyIn p q m
    → OnlyIn p q (insert j (lookup_or j [] m ++ (u ∷ [])) m)
pushed-OnlyIn p q j u m other h k ne = elim (eq_or_ne k j) [
  | inl same ↦
      let apart : u.use_of ≢ p = elim other [ inl a ↦ a | inr e ↦ absurd (ne (same ∙ e)) ] in
      let there : HasNone p (lookup_or j [] m ++ (u ∷ [])) =
        All-append (λ (x : Use). x.use_of ≢ p) (lookup_or j [] m) (u ∷ [])
          (h j (λ e. ne (same ∙ e))) (apart, tt) in
      subst (λ i. HasNone p (lookup_or i [] (insert j (lookup_or j [] m ++ (u ∷ [])) m))) (sym same)
        (subst (HasNone p) (sym (pushed_here j u m)) there)
  | inr differs ↦ subst (HasNone p) (sym (pushed_elsewhere j k u m differs)) (h k ne)
]

pub pushed-HasUse :
    (p q j : ℕ) (u : Use) (m : List (ℕ × List Use))
    → HasUse p (lookup_or q [] m)
    → HasUse p (lookup_or q [] (insert j (lookup_or j [] m ++ (u ∷ [])) m))
pushed-HasUse p q j u m h = elim (eq_or_ne q j) [
  | inl same ↦
      subst (λ i. HasUse p (lookup_or i [] (insert j (lookup_or j [] m ++ (u ∷ [])) m))) (sym same)
        (subst (HasUse p) (sym (pushed_here j u m)) (
          HasUse-left p (lookup_or j [] m) (u ∷ [])
            (subst (λ i. HasUse p (lookup_or i [] m)) same h)))
  | inr differs ↦ subst (HasUse p) (sym (pushed_elsewhere j q u m differs)) h
]
