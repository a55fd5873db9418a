-- ===== src/Text/Hangul.antt =====
-- HangDeco: composition, and what correct() makes of a string.
use fsview.Base.{
  ℕ, ◌+◌, ◌-◌, ◌*◌, ◌≡◌, ◌∙◌, refl, sym, ap, Bool, false, arith, some, none, Option, [], ◌∷◌, ◌++◌,
  ltb, leb, ◌&&◌, inl, inr, ◌>>=◌, Bool-cases,
}
use fsview.Text.{Unicode, jamos, hang_deco, correct, s_base, l_base, v_base, t_base, s_count}
use fsview.Text.Correct.{
  correct-one_pass, one_pass_bad, one_pass_good, one_pass, replace_all, spell_all, spell_all-append,
}

-- The arithmetic composition of the Unicode standard, section 3.12.
unfoldable pub compose : Unicode → Option ℕ
compose [] = none
compose (l ∷ []) = some l
compose (l ∷ v ∷ []) = some (s_base + ((l - l_base) * 21 + (v - v_base)) * 28)
compose (l ∷ v ∷ t ∷ []) = some (s_base + ((l - l_base) * 21 + (v - v_base)) * 28 + (t - t_base))
compose (l ∷ v ∷ t ∷ u ∷ rest) = none

-- Composing the jamos of a character gives the character.
pub compose-jamos : (c : ℕ) → compose (jamos c) ≡ some c
unfolding compose jamos
compose-jamos c = ground arith

-- No jamo, and no character outside the range, is decomposed again.
spell_all-jamos : (c : ℕ) → spell_all jamos (jamos c) ≡ jamos c
unfolding spell_all jamos
spell_all-jamos c = ground arith

spell_all_cons : (c : ℕ) (cs : Unicode) → spell_all jamos (c ∷ cs) ≡ jamos c ++ spell_all jamos cs
unfolding spell_all
spell_all_cons c cs = refl

spell_all-again : (s : Unicode) → spell_all jamos (spell_all jamos s) ≡ spell_all jamos s
spell_all-again [] = unfold spell_all in refl
spell_all-again (c ∷ cs) =
    let ih = spell_all-again cs in
    ap (spell_all jamos) (spell_all_cons c cs)
    ∙ spell_all-append jamos (jamos c) (spell_all jamos cs)
    ∙ rw (spell_all-jamos c, ih) (sym (spell_all_cons c cs))

replace_all-jamos : (s : Unicode) → replace_all (λ c. some (jamos c)) s ≡ some (spell_all jamos s)
unfolding replace_all spell_all
replace_all-jamos [] = refl
replace_all-jamos (c ∷ cs) = rw (replace_all-jamos cs) refl

abbrev in_range : ℕ → Bool
in_range wc = leb s_base wc && ltb wc (s_base + s_count)

jamos_regular : (c : ℕ) → in_range c ≡ false → jamos c ≡ c ∷ []
unfolding jamos
jamos_regular c e = ground arith

one_pass-jamos :
    (s : Unicode) → one_pass in_range (λ c. some (jamos c)) s ≡ some (spell_all jamos s)
one_pass-jamos [] = unfold one_pass spell_all in refl
one_pass-jamos (c ∷ cs) =
    let ih = one_pass-jamos cs in
    elim (Bool-cases (in_range c)) [
      | inl e ↦ one_pass_bad in_range (λ t. some (jamos t)) c cs e ∙ replace_all-jamos (c ∷ cs)
      | inr e ↦
          one_pass_good in_range (λ t. some (jamos t)) c cs e
          ∙ ap (λ (a : Option Unicode). a >>= (λ s. some (c ∷ s))) ih
          ∙ ap some (
              ap (λ r. r ++ spell_all jamos cs) (sym (jamos_regular c e))
              ∙ sym (spell_all_cons c cs))
    ]

-- correct() decomposes every syllable of a string and keeps all other characters.
pub correct-hang_deco : (s : Unicode) → correct hang_deco s ≡ some (spell_all jamos s)
unfolding hang_deco
correct-hang_deco s =
    correct-one_pass hang_deco (λ c. some (jamos c)) (λ out c. refl) s ∙ one_pass-jamos s

-- What correct() of the Korean decomposition answers is left as it is by a second correction.
pub correct-hang_deco_idempotent :
    (s t : Unicode) → correct hang_deco s ≡ some t → correct hang_deco t ≡ some t
correct-hang_deco_idempotent s t e =
    let same : spell_all jamos s ≡ t = cc (correct-hang_deco s) in
    rw (← same) (correct-hang_deco (spell_all jamos s) ∙ ap some (spell_all-again s))
