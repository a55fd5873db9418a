-- ===== src/Text/Length.antt =====
-- How much UTF8Homebrew::parse writes.
use fsview.Base.{
  ℕ, ◌+◌, ◌≤◌, ◌≡◌, refl, false, arith, List, [], ◌∷◌, if◌then◌else◌, ◌==◌, eq_or_ne, inl, inr,
  length, length-append,
}
use fsview.Text.{
  Leftover, continued, forbidden, trailing, trail_count, Parser, parse_octet, parse_rest,
  utf8_parse, flush, take_octet, restart, un_char,
}

-- What is written, and one for a character that is not finished.
abbrev spent : Parser → ℕ
spent p = length p.out + (if p.left == 0 then 0 else 1)

length-restart : (p : Parser) → length (restart p) ≡ spent p
length-restart p = elim (eq_or_ne p.left 0) [
  | inl e ↦ rw e (omega arith)
  | inr ne ↦
      let busy : (p.left == 0) ≡ false = ground arith in
      rw (busy, length-append p.out (un_char ∷ [])) refl
]

spent-flush : (q : Parser) → spent (flush q) ≤ length q.out + 1
spent-flush q = elim (eq_or_ne q.left 0) [
  | inl e ↦ rw (e, length-append q.out (q.wc ∷ [])) (omega arith)
  | inr ne ↦
      let busy : (q.left == 0) ≡ false = ground arith in
      let same : flush q ≡ q = rw busy refl in rw (same, busy) (omega arith)
]

length-take_octet : (p : Parser) (r : Leftover × ℕ) → length (take_octet p r).out ≤ spent p
length-take_octet p (continued, octet) = elim (eq_or_ne p.left 0) [
  | inl e ↦ rw e (omega arith)
  | inr ne ↦ let busy : (p.left == 0) ≡ false = ground arith in rw busy (omega arith)
]
length-take_octet p (forbidden, octet) = omega (arith, length-restart p)
length-take_octet p (trailing n, octet) = omega (arith, length-restart p)

spent-parse_octet : (p : Parser) (c : ℕ) → spent (parse_octet p c) ≤ spent p + 1
unfolding parse_octet
spent-parse_octet p c =
    omega (arith, spent-flush (take_octet p (trail_count c)), length-take_octet p (trail_count c))

length-parse_rest : (p : Parser) (cs : List ℕ) → length (parse_rest p cs) ≤ spent p + length cs
unfolding parse_rest
length-parse_rest p [] = omega (arith, length-restart p)
length-parse_rest p (c ∷ cs) =
    let ih = length-parse_rest (parse_octet p c) cs in
    elim (eq_or_ne c 0) [
      | inl e ↦ rw e (omega (arith, length-restart p))
      | inr ne ↦
          let more : (c == 0) ≡ false = ground arith in
          rw more (omega (arith, ih, spent-parse_octet p c))
    ]

-- No more characters come out of the parser than bytes went in, however malformed they are.
pub length-utf8_parse : (source : List ℕ) → length (utf8_parse source) ≤ length source
unfolding utf8_parse
length-utf8_parse source =
    omega (arith, length-parse_rest (record { out = []; left = 0; wc = 0 }) source)
