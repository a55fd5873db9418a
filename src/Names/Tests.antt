-- ===== src/Names/Tests.antt =====
-- Checksums and names at concrete inputs.
use fsview.Base.{
  ℕ, ◌≤◌, ◌≡◌, refl, true, false, [], ◌∷◌, some, none, arith, length, All, suc, ◌<◌, eq_or_ne, inl,
  inr,
}
use fsview.Base.{Option}
use fsview.Text.{Unicode}
use fsview.Names.{
  NamePool, UniqName, pri_vol_rule, dos_vol_rule, crc_step, crc_from, crc32, translit, mix_in_var,
  uniq_name, decimal, find_name, same_name, fit_base, fit_name, vary, try_existing, try_brand_new,
  decorate, rfind, dot_pos, spay_all, ensure_d,
}
use fsview.Names.Rule.{IsD, mix_in_var_fits, translit_short}
use fsview.Names.Ends.{fit_base_ends}
use fsview.Names.Pool.{IsPool, fit_base_unique}

-- The check value of CRC-32: the sum of the digits 1 to 9.
crc_run : crc32 (49 ∷ 50 ∷ 51 ∷ 52 ∷ 53 ∷ 54 ∷ 55 ∷ 56 ∷ 57 ∷ []) ≡ some 0xcbf43926
unfolding crc32 crc_from crc_step
crc_run = refl

abbrev no_names : NamePool
no_names = record { conv_to_link = []; link_to_conv = [] }

-- "abcd.txt" and "a.txt"
abbrev long_name : Unicode
long_name = 97 ∷ 98 ∷ 99 ∷ 100 ∷ 46 ∷ 116 ∷ 120 ∷ 116 ∷ []

abbrev short_name : Unicode
short_name = 97 ∷ 46 ∷ 116 ∷ 120 ∷ 116 ∷ []

abbrev no_variant : ℕ → ℕ
no_variant attempt = 0

abbrev given : Option (UniqName × NamePool) → Unicode
given none = []
given (some (name, pool)) = name.conv

-- "ABCD.TXT;1", and "A_TXT.;1" for the short name.
long_run :
    given (fit_name 1 pri_vol_rule no_variant long_name true no_names)
    ≡ 65 ∷ 66 ∷ 67 ∷ 68 ∷ 46 ∷ 84 ∷ 88 ∷ 84 ∷ 59 ∷ 49 ∷ []
unfolding fit_name fit_base vary try_existing try_brand_new decorate translit mix_in_var decimal
    rfind dot_pos spay_all ensure_d find_name same_name
long_run = refl

short_run :
    given (fit_name 1 pri_vol_rule no_variant short_name true no_names)
    ≡ 65 ∷ 95 ∷ 84 ∷ 88 ∷ 84 ∷ 46 ∷ 59 ∷ 49 ∷ []
unfolding fit_name fit_base vary try_existing try_brand_new decorate translit mix_in_var decimal
    rfind dot_pos spay_all ensure_d find_name same_name
short_run = refl

translit_short_example : (translit pri_vol_rule (uniq_name short_name true)).link ≡ short_name
translit_short_example = translit_short pri_vol_rule short_name (omega arith) (omega arith)

mix_in_var_fits_example :
    All IsD ((mix_in_var dos_vol_rule 1997 (translit dos_vol_rule (uniq_name long_name true))).conv)
    × (length
          ((mix_in_var dos_vol_rule 1997 (translit dos_vol_rule (uniq_name long_name true))).conv)
        ≤ 8)
unfolding decimal
mix_in_var_fits_example =
    mix_in_var_fits dos_vol_rule 1997 long_name true refl (omega arith) (omega arith)

-- The pool after the name "AB" was given to the link "ab".
abbrev one_name : NamePool
one_name = record {
  conv_to_link = (65 ∷ 66 ∷ [], 97 ∷ 98 ∷ []) ∷ [];
  link_to_conv = (97 ∷ 98 ∷ [], 65 ∷ 66 ∷ []) ∷ [];
}

-- "Ab" gets another name than "ab".
abbrev two_names : NamePool
two_names = record {
  conv_to_link = (65 ∷ 66 ∷ 49 ∷ [], 65 ∷ 98 ∷ []) ∷ one_name.conv_to_link;
  link_to_conv = (65 ∷ 98 ∷ [], 65 ∷ 66 ∷ 49 ∷ []) ∷ one_name.link_to_conv;
}

abbrev count : ℕ → ℕ
count attempt = attempt

abbrev second : UniqName
second = record {
  conv = 65 ∷ 66 ∷ 49 ∷ [];
  seps = [];
  tran = 65 ∷ 66 ∷ [];
  link = 65 ∷ 98 ∷ [];
  is_file = false;
}

second_run : fit_base 2 dos_vol_rule count (65 ∷ 98 ∷ []) false one_name ≡ some (second, two_names)
unfolding fit_base vary try_existing try_brand_new translit mix_in_var decimal rfind dot_pos
    spay_all ensure_d find_name same_name
second_run = refl

no_names-IsPool : IsPool no_names
unfolding find_name
no_names-IsPool l c e = cc

first_run :
    fit_base 1 dos_vol_rule count (97 ∷ 98 ∷ []) false no_names
    ≡ some (record second { conv = 65 ∷ 66 ∷ []; link = 97 ∷ 98 ∷ [] }, one_name)
unfolding fit_base vary try_existing try_brand_new translit mix_in_var decimal rfind dot_pos
    spay_all ensure_d find_name same_name
first_run = refl

abbrev ab : Unicode
ab = 97 ∷ 98 ∷ []

fit_base_unique_example : IsPool one_name × (ab ≡ ab)
fit_base_unique_example =
    fit_base_unique 1 dos_vol_rule count (97 ∷ 98 ∷ []) false no_names ab no_names-IsPool first_run
      (unfold find_name same_name in refl)

one_digit : (i : ℕ) → i < 3 → length (decimal 10 (suc i) []) ≡ 1
unfolding decimal
one_digit i lt = elim (eq_or_ne i 0) [
  | inl e ↦ rw e refl
  | inr ne ↦ elim (eq_or_ne i 1) [
    | inl e ↦ rw e refl
    | inr ne' ↦ let two : i ≡ 2 = omega arith in rw two refl
  ]
]

-- The pool holds "AB" and "AB1": of the attempts 1 to 3 for "aB" one gives a free name.
fit_base_ends_example :
    (name : UniqName) × (pool : NamePool) × (fit_base 4 dos_vol_rule count
        (97 ∷ 66 ∷ [])
        false
        two_names
      ≡ some (name, pool))
fit_base_ends_example =
    fit_base_ends 4 1 suc dos_vol_rule count (97 ∷ 66 ∷ []) false two_names (λ i le. omega arith)
      (λ i j li lj e. omega arith) (λ i le. (omega arith, one_digit i (omega arith)))
