-- ===== src/Names/Rule.antt =====
-- CDFSRule: the characters and the lengths of the names that it makes.
use fsview.Base.{
  ℕ, zero, suc, ◌+◌, ◌-◌, ◌*◌, ◌/◌, ◌%◌, ◌^◌, ◌<◌, ◌≤◌, ◌≡◌, ◌⊎◌, inl, inr, refl, Bool, true, false,
  min, [], ◌∷◌, some, none, Option, arith, All, length, length-append, length-take, take, eq_or_ne,
  Option-cases, ap, ltb, lt→ltb, ◌==◌, All-append,
}
use fsview.Base.Words.{sub64}
use native.Mathlib.Nat.{pow-suc}
use fsview.Text.{Unicode}
use fsview.Names.{
  NameRule, UniqName, ensure_d, rfind, last_of, dot_pos, spay_all, translit, mix_in_var, decimal,
  uniq_name,
}

-- A to Z, 0 to 9 and the underscore.
abbrev pub IsD : ℕ → Type 0
IsD c = ((65 ≤ c) × (c ≤ 90)) ⊎ (((48 ≤ c) × (c ≤ 57)) ⊎ (c ≡ 95))

ensure_d-IsD : (c : ℕ) → IsD (ensure_d c)
unfolding ensure_d
ensure_d-IsD c = ground arith

spay_all-IsD : (s : Unicode) → All IsD (spay_all ensure_d s)
unfolding spay_all
spay_all-IsD [] = tt
spay_all-IsD (c ∷ cs) = (ensure_d-IsD c, spay_all-IsD cs)

All-take : (n : ℕ) (s : Unicode) → All IsD s → All IsD (take n s)
All-take zero s h = tt
All-take (suc n) [] h = tt
All-take (suc n) (c ∷ cs) (hc, h) = (hc, All-take n cs h)

decimal-IsD : (fuel v : ℕ) (acc : Unicode) → All IsD acc → All IsD (decimal fuel v acc)
unfolding decimal
decimal-IsD zero v acc h = h
decimal-IsD (suc fuel) v acc h =
    let ih = decimal-IsD fuel (v / 10) ((48 + v % 10) ∷ acc) (inr (inl (omega arith)), h) in
    elim (eq_or_ne v 0) [
      | inl e ↦ let done : (v == 0) ≡ true = ground arith in rw done h
      | inr ne ↦ let more : (v == 0) ≡ false = ground arith in rw more ih
    ]

-- The number that a row of digits stands for, after `n`.
unfoldable pub read_decimal : ℕ → Unicode → ℕ
read_decimal n [] = n
read_decimal n (c ∷ cs) = read_decimal (n * 10 + (c - 48)) cs

pub read-decimal :
    (fuel v : ℕ) (acc : Unicode)
    → v < 10 ^ fuel
    → read_decimal 0 (decimal fuel v acc) ≡ read_decimal v acc
unfolding decimal read_decimal
read-decimal zero v acc h = let last : v ≡ 0 = omega arith in rw last refl
read-decimal (suc fuel) v acc h =
    let ih = read-decimal fuel (v / 10) ((48 + v % 10) ∷ acc) (grind (arith, pow-suc 10 fuel)) in
    elim (eq_or_ne v 0) [
      | inl e ↦ let done : (v == 0) ≡ true = ground arith in rw (done, e) refl
      | inr ne ↦
          let more : (v == 0) ≡ false = ground arith in
          let digit : v / 10 * 10 + (48 + v % 10 - 48) ≡ v = omega arith in rw more (rw digit at ih)
    ]

-- An attempt of a rule with EnsureD gives a base of A to Z, 0 to 9 and the underscore that is no
-- longer than the rule's base size, where the digits of the variant leave room.
pub mix_in_var_fits :
    (rule : NameRule) (variant : ℕ) (orig : Unicode) (file : Bool)
    → rule.spay ≡ ensure_d
    → rule.m_base < 2 ^ 64
    → length (decimal 10 variant []) ≤ rule.m_base
    → All IsD ((mix_in_var rule variant (translit rule (uniq_name orig file))).conv)
      × (length ((mix_in_var rule variant (translit rule (uniq_name orig file))).conv)
          ≤ rule.m_base)
unfolding mix_in_var translit
mix_in_var_fits rule variant orig file spay small room =
    let name : UniqName = translit rule (uniq_name orig file) in
    let itoa : Unicode = decimal 10 variant [] in
    let n : ℕ = min (length name.link) (sub64 rule.m_base (length itoa)) in
    let left : sub64 rule.m_base (length itoa) ≡ rule.m_base - length itoa = omega arith in
    let clean : All IsD (spay_all rule.spay orig) = rw spay (spay_all-IsD orig) in
    (
      All-append IsD (take n name.tran) itoa (All-take n name.tran clean)
          (decimal-IsD 10 variant [] tt),
      omega (arith, length-append (take n name.tran) itoa, length-take n name.tran, left),
    )

-- The digits that an attempt appends for a variant below 10 ^ 10 are those of the variant.
pub read-itoa : (variant : ℕ) → variant < 10 ^ 10 → read_decimal 0 (decimal 10 variant []) ≡ variant
unfolding read_decimal
read-itoa variant h = read-decimal 10 variant [] h

rfind-lt : (wc : ℕ) (s : Unicode) (pos : ℕ) → rfind wc s ≡ some pos → pos < length s
unfolding rfind
rfind-lt wc [] pos e = cc
rfind-lt wc (c ∷ cs) pos e =
    let ih = rfind-lt wc cs in
    elim (Option-cases (rfind wc cs)) [
      | inl missing ↦
          let found : last_of (c == wc) none ≡ some pos = rw missing at e in ground arith
      | inr (p, later) ↦
          let found : some (suc p) ≡ some pos = rw later at e in
          let same : suc p ≡ pos = cc in omega (arith, ih p later)
    ]

take_all : (s : Unicode) → take (length s) s ≡ s
take_all [] = refl
take_all (c ∷ cs) = ap (λ r. c ∷ r) (take_all cs)

dot_pos-short :
    (m_ext : ℕ) (s : Unicode) (o : Option ℕ)
    → length s ≤ m_ext
    → m_ext < 2 ^ 63
    → ((pos : ℕ) → o ≡ some pos → pos < length s)
    → dot_pos m_ext (length s) o ≡ length s
unfolding dot_pos
dot_pos-short m_ext s none h small below = refl
dot_pos-short m_ext s (some pos) h small below =
    let before : pos < length s = below pos refl in
    let wrapped : ltb pos (sub64 (sub64 (length s) m_ext) 1) ≡ true = lt→ltb pos _ (omega arith) in
    rw wrapped refl

-- In a name that is no longer than the rule's extension size no extension is told apart, whatever
-- dots it has: the position of the last dot is compared with a difference that has wrapped around.
pub translit_short :
    (rule : NameRule) (orig : Unicode)
    → length orig ≤ rule.m_ext
    → rule.m_ext < 2 ^ 63
    → (translit rule (uniq_name orig true)).link ≡ orig
unfolding translit
translit_short rule orig h small =
    rw (dot_pos-short rule.m_ext orig (rfind 46 orig) h small (rfind-lt 46 orig)) (take_all orig)
