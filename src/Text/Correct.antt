-- ===== src/Text/Correct.antt =====
-- IUniDeco::correct in one pass, and CMapDeco over any map.
use mathlib.Core.List.{append_assoc, append-nil}
use fsview.Base.{
  ℕ, suc, ◌+◌, ◌≡◌, ◌≢◌, ◌∙◌, refl, sym, ap, Bool, true, false, arith, some, none, Option, List, [],
  ◌∷◌, ◌++◌, ◌>>=◌, if◌then◌else◌, inl, inr, All, take, drop, Bool-cases, Option-cases,
}
use fsview.Base.SortedMap.{lookup, lookup_or}
use fsview.Text.{
  Unicode, Deco, irregular, decompose_from, decompose, correct, correct_from, map_append, map_deco,
  is_some,
}

-- All replacements in a row.
unfoldable pub replace_all : (ℕ → Option Unicode) → Unicode → Option Unicode
replace_all w [] = some []
replace_all w (c ∷ cs) = do s ← w c; rest ← replace_all w cs; some (s ++ rest)

-- Up to the first irregular character all is kept, from there on all is replaced.
unfoldable pub one_pass : (ℕ → Bool) → (ℕ → Option Unicode) → Unicode → Option Unicode
one_pass bad w [] = some []
one_pass bad w (c ∷ cs) =
    let rest = one_pass bad w cs in
    if bad c then replace_all w (c ∷ cs) else (rest >>= (λ s. some (c ∷ s)))

>>=-ext :
    (a : Option Unicode) (f g : Unicode → Option Unicode)
    → ((t : Unicode) → f t ≡ g t)
    → (a >>= f) ≡ (a >>= g)
>>=-ext none f g h = refl
>>=-ext (some t) f g h = h t

irregular_bad :
    (d : Deco) (c : ℕ) (cs : Unicode) → d.irreguchar c ≡ true → irregular d (c ∷ cs) ≡ some 0
unfolding irregular
irregular_bad d c cs e = rw e refl

irregular_good :
    (d : Deco) (c : ℕ) (cs : Unicode)
    → d.irreguchar c ≡ false
    → irregular d (c ∷ cs) ≡ (irregular d cs >>= (λ pos. some (pos + 1)))
unfolding irregular
irregular_good d c cs e = rw e refl

two_appends :
    (out : Unicode) (a b : Option Unicode)
    → (map_append out a >>= (λ t. map_append t b))
      ≡ map_append out (a >>= (λ s. b >>= (λ r. some (s ++ r))))
two_appends out none b = refl
two_appends out (some s) none = refl
two_appends out (some s) (some r) = ap some (append_assoc out s r)

append_cons :
    (c : ℕ) (out : Unicode) (a : Option Unicode)
    → map_append (c ∷ out) a ≡ (map_append out a >>= (λ s. some (c ∷ s)))
append_cons c out none = refl
append_cons c out (some s) = refl

empty_append : (a : Option Unicode) → map_append [] a ≡ a
empty_append none = refl
empty_append (some s) = refl

pub one_pass_bad :
    (bad : ℕ → Bool) (w : ℕ → Option Unicode) (c : ℕ) (cs : Unicode)
    → bad c ≡ true
    → one_pass bad w (c ∷ cs) ≡ replace_all w (c ∷ cs)
unfolding one_pass
one_pass_bad bad w c cs e = rw e refl

pub one_pass_good :
    (bad : ℕ → Bool) (w : ℕ → Option Unicode) (c : ℕ) (cs : Unicode)
    → bad c ≡ false
    → one_pass bad w (c ∷ cs) ≡ (one_pass bad w cs >>= (λ s. some (c ∷ s)))
unfolding one_pass
one_pass_good bad w c cs e = rw e refl

module _ (d : Deco) (w : ℕ → Option Unicode)
    (writes : (out : Unicode) (c : ℕ) → d.decompochar out c ≡ map_append out (w c)) where
  decompose_from_cons :
      (out : Unicode) (c : ℕ) (cs : Unicode)
      → ((t : Unicode) → decompose_from d t cs ≡ map_append t (replace_all w cs))
      → decompose_from d out (c ∷ cs) ≡ map_append out (replace_all w (c ∷ cs))
  unfolding decompose_from replace_all
  decompose_from_cons out c cs ih =
      ap (λ (a : Option Unicode). a >>= (λ t. decompose_from d t cs)) (writes out c)
      ∙ >>=-ext (map_append out (w c)) _ _ ih
      ∙ two_appends out (w c) (replace_all w cs)

  decompose_from-replace_all :
      (out cs : Unicode) → decompose_from d out cs ≡ map_append out (replace_all w cs)
  decompose_from-replace_all out [] =
      unfold decompose_from replace_all in sym (ap some (append-nil out))
  decompose_from-replace_all out (c ∷ cs) =
      decompose_from_cons out c cs (λ t. decompose_from-replace_all t cs)

  correct_bad :
      (c : ℕ) (cs : Unicode) → d.irreguchar c ≡ true → correct d (c ∷ cs) ≡ replace_all w (c ∷ cs)
  unfolding correct decompose
  correct_bad c cs e =
      ap (correct_from d (c ∷ cs)) (irregular_bad d c cs e)
      ∙ decompose_from-replace_all [] (c ∷ cs)
      ∙ empty_append (replace_all w (c ∷ cs))

  correct_good :
      (c : ℕ) (cs : Unicode)
      → d.irreguchar c ≡ false
      → correct d (c ∷ cs) ≡ (correct d cs >>= (λ s. some (c ∷ s)))
  unfolding correct decompose
  correct_good c cs e = elim (Option-cases (irregular d cs)) [
    | inl clean ↦ rw (irregular_good d c cs e, clean) refl
    | inr (pos, found) ↦
        let next : pos + 1 ≡ suc pos = omega arith in
        rw (irregular_good d c cs e, found, next)
          (decompose_from-replace_all (c ∷ take pos cs) (drop pos cs)
            ∙ append_cons c (take pos cs) (replace_all w (drop pos cs))
            ∙ ap (λ (a : Option Unicode). a >>= (λ s. some (c ∷ s)))
                (sym (decompose_from-replace_all (take pos cs) (drop pos cs))))
  ]

  -- correct() of a character-wise correction is one pass over the string.
  pub correct-one_pass : (s : Unicode) → correct d s ≡ one_pass d.irreguchar w s
  correct-one_pass [] = unfold correct irregular one_pass in refl
  correct-one_pass (c ∷ cs) =
      let ih = correct-one_pass cs in
      elim (Bool-cases (d.irreguchar c)) [
        | inl e ↦ correct_bad c cs e ∙ sym (one_pass_bad d.irreguchar w c cs e)
        | inr e ↦
            correct_good c cs e
            ∙ ap (λ (a : Option Unicode). a >>= (λ s. some (c ∷ s))) ih
            ∙ sym (one_pass_good d.irreguchar w c cs e)
      ]

-- The reference: every character replaced on its own.
unfoldable pub spell_all : (ℕ → Unicode) → Unicode → Unicode
spell_all w [] = []
spell_all w (c ∷ cs) = w c ++ spell_all w cs

pub spell_all-append :
    (w : ℕ → Unicode) (s t : Unicode) → spell_all w (s ++ t) ≡ spell_all w s ++ spell_all w t
unfolding spell_all
spell_all-append w [] t = refl
spell_all-append w (c ∷ cs) t =
    ap (λ r. w c ++ r) (spell_all-append w cs t) ∙ sym (append_assoc (w c) _ _)

abbrev pub is_illegal : List (ℕ × Unicode) → ℕ → Bool
is_illegal m c = is_some (lookup c m)

pub map_deco-one_pass :
    (m : List (ℕ × Unicode)) (s : Unicode)
    → correct (map_deco m) s ≡ one_pass (is_illegal m) (λ c. lookup c m) s
unfolding map_deco
map_deco-one_pass m s = correct-one_pass (map_deco m) (λ c. lookup c m) (λ out c. refl) s

replace_all_undefined :
    (w : ℕ → Option Unicode) (s : Unicode) (e : ℕ) (post : Unicode)
    → w e ≡ none
    → replace_all w (s ++ e ∷ post) ≡ none
unfolding replace_all
replace_all_undefined w [] e post h = rw h refl
replace_all_undefined w (c ∷ cs) e post h = ground (arith, replace_all_undefined w cs e post h)

one_pass_undefined :
    (m : List (ℕ × Unicode)) (pre : Unicode) (c : ℕ) (mid : Unicode) (e : ℕ) (post : Unicode)
    → is_illegal m c ≡ true
    → lookup e m ≡ none
    → one_pass (is_illegal m) (λ t. lookup t m) (pre ++ c ∷ mid ++ e ∷ post) ≡ none
unfolding one_pass
one_pass_undefined m [] c mid e post hc he =
    rw hc (replace_all_undefined (λ t. lookup t m) (c ∷ mid) e post he)
one_pass_undefined m (p ∷ pre) c mid e post hc he =
    let ih = one_pass_undefined m pre c mid e post hc he in
    let all = replace_all_undefined (λ t. lookup t m) (p ∷ pre ++ c ∷ mid) e post he in
    elim (Bool-cases (is_illegal m p)) [ inl e ↦ rw e all | inr e ↦ rw (e, ih) refl ]

-- A legal character behind an illegal one makes the correction by a map read past the map's end.
pub map_deco_undefined :
    (m : List (ℕ × Unicode)) (pre : Unicode) (c : ℕ) (mid : Unicode) (e : ℕ) (post : Unicode)
    → lookup c m ≢ none
    → lookup e m ≡ none
    → correct (map_deco m) (pre ++ c ∷ mid ++ e ∷ post) ≡ none
map_deco_undefined m pre c mid e post hc he =
    let known : is_illegal m c ≡ true = elim (Option-cases (lookup c m)) [
      | inl e ↦ absurd (hc e)
      | inr (t, e) ↦ rw e refl
    ] in
    map_deco-one_pass m _ ∙ one_pass_undefined m pre c mid e post known he

-- What stands for a character: its replacement, or itself.
abbrev pub spelled : List (ℕ × Unicode) → ℕ → Unicode
spelled m c = lookup_or c (c ∷ []) m

spelled-lookup :
    (m : List (ℕ × Unicode)) (c : ℕ) → lookup c m ≢ none → lookup c m ≡ some (spelled m c)
unfolding lookup lookup_or
spelled-lookup [] c h = absurd (h refl)
spelled-lookup ((j, v) ∷ m) c h = ground (arith, spelled-lookup m c)

spelled-legal : (m : List (ℕ × Unicode)) (c : ℕ) → lookup c m ≡ none → spelled m c ≡ c ∷ []
unfolding lookup lookup_or
spelled-legal [] c h = refl
spelled-legal ((j, v) ∷ m) c h = ground (arith, spelled-legal m c)

replace_all-spelled :
    (m : List (ℕ × Unicode)) (s : Unicode)
    → All (λ c. lookup c m ≢ none) s
    → replace_all (λ c. lookup c m) s ≡ some (spell_all (spelled m) s)
unfolding replace_all spell_all
replace_all-spelled m [] h = refl
replace_all-spelled m (c ∷ cs) (hc, h) = rw (spelled-lookup m c hc, replace_all-spelled m cs h) refl

spell_all_legal :
    (m : List (ℕ × Unicode)) (c : ℕ) (cs : Unicode)
    → lookup c m ≡ none
    → some (c ∷ spell_all (spelled m) cs) ≡ some (spell_all (spelled m) (c ∷ cs))
unfolding spell_all
spell_all_legal m c cs h = rw (spelled-legal m c h) refl

one_pass-spelled :
    (m : List (ℕ × Unicode)) (pre suf : Unicode)
    → All (λ c. lookup c m ≡ none) pre
    → All (λ c. lookup c m ≢ none) suf
    → one_pass (is_illegal m) (λ c. lookup c m) (pre ++ suf)
      ≡ some (spell_all (spelled m) (pre ++ suf))
one_pass-spelled m [] [] h g = unfold one_pass spell_all in refl
one_pass-spelled m [] (c ∷ cs) h (hc, g) =
    let known : is_illegal m c ≡ true = rw (spelled-lookup m c hc) refl in
    one_pass_bad (is_illegal m) (λ t. lookup t m) c cs known
    ∙ replace_all-spelled m (c ∷ cs) (hc, g)
one_pass-spelled m (c ∷ pre) suf (hc, h) g =
    let ih = one_pass-spelled m pre suf h g in
    let legal : is_illegal m c ≡ false = rw hc refl in
    one_pass_good (is_illegal m) (λ t. lookup t m) c (pre ++ suf) legal
    ∙ rw ih (spell_all_legal m c (pre ++ suf) hc)

-- Where legal characters come before all illegal ones, the correction by a map succeeds, and replaces
-- each illegal character by its sequence.
pub map_deco_defined :
    (m : List (ℕ × Unicode)) (pre suf : Unicode)
    → All (λ c. lookup c m ≡ none) pre
    → All (λ c. lookup c m ≢ none) suf
    → correct (map_deco m) (pre ++ suf) ≡ some (spell_all (spelled m) (pre ++ suf))
map_deco_defined m pre suf h g = map_deco-one_pass m (pre ++ suf) ∙ one_pass-spelled m pre suf h g
