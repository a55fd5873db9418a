-- ===== src/Text/Utf8.antt =====
-- UTF8Homebrew::parse against an independent UTF-8 encoder, and how much it writes.
use mathlib.Core.List.{append_assoc, append-nil}
use fsview.Base.{
  ℕ, suc, ◌+◌, ◌-◌, ◌*◌, ◌/◌, ◌%◌, ◌^◌, ◌<◌, ◌≡◌, ◌∙◌, refl, sym, ap, false, arith, bit_or, List,
  [], ◌∷◌, ◌++◌, if◌then◌else◌, ◌==◌, ltb, All,
}
use fsview.Base.Bits.{pow-add}
use native.Mathlib.Nat.{one-le-pow, mul-lt-mul_of_pos_right}
use fsview.Text.{
  Unicode, continued, trailing, trail_count, Parser, parse_octet, parse_rest, utf8_parse, flush,
  take_octet,
}
use fsview.Text.Scan.{bit_or_apart}
use fsview.Text.Leads.{trail_count_0, trail_count_1, trail_count_2, trail_count_3, trail_count_tail}

-- The UTF-8 form of a character below 2 ^ 21.
unfoldable pub utf8_encode : ℕ → List ℕ
utf8_encode c =
    if ltb c 0x80
    then c ∷ []
    else if ltb c 0x800
    then (0xc0 + c / 64) ∷ (0x80 + c % 64) ∷ []
    else if ltb c 0x10000
    then (0xe0 + c / 4096) ∷ (0x80 + c / 64 % 64) ∷ (0x80 + c % 64) ∷ []
    else (0xf0 + c / 262144) ∷ (0x80 + c / 4096 % 64) ∷ (0x80 + c / 64 % 64) ∷ (0x80 + c % 64) ∷ []

unfoldable pub utf8_encode_all : Unicode → List ℕ
utf8_encode_all [] = []
utf8_encode_all (c ∷ cs) = utf8_encode c ++ utf8_encode_all cs

-- The parser between two characters, and inside of one.
abbrev ready : Unicode → ℕ → Parser
ready out wc = record { out = out; left = 0; wc = wc }

abbrev inside : Unicode → ℕ → ℕ → Parser
inside out left wc = record { out = out; left = left; wc = wc }

parse_rest_octet :
    (p q : Parser) (c : ℕ) (cs : List ℕ)
    → 0 < c
    → parse_octet p c ≡ q
    → parse_rest p (c ∷ cs) ≡ parse_rest q cs
unfolding parse_rest
parse_rest_octet p q c cs h e = rw (← e) (ground arith)

joined :
    (n q v : ℕ)
    → v < 64
    → bit_or (q * 2 ^ (suc n * 6)) (v * 2 ^ (n * 6)) ≡ (q * 64 + v) * 2 ^ (n * 6)
joined n q v h =
    let width : suc n * 6 ≡ 6 + n * 6 = omega arith in
    let apart : bit_or (q * 2 ^ (6 + n * 6)) (v * 2 ^ (n * 6))
        ≡ q * 2 ^ (6 + n * 6) + v * 2 ^ (n * 6) =
      bit_or_apart (6 + n * 6) q (v * 2 ^ (n * 6)) (
        rw (pow-add 2 6 (n * 6))
          (mul-lt-mul_of_pos_right h (one-le-pow (n * 6) 2 (omega arith)))) in
    rw width (apart ∙ rw (pow-add 2 6 (n * 6)) (grind arith))

take_octet_tail :
    (out : Unicode) (n q v : ℕ)
    → v < 64
    → take_octet (inside out (suc n) (q * 2 ^ (suc n * 6))) (continued, v)
      ≡ inside out n ((q * 64 + v) * 2 ^ (n * 6))
take_octet_tail out n q v h =
    let before : suc n - 1 ≡ n = omega arith in
    let busy : (suc n == 0) ≡ false = ground arith in rw (before, joined n q v h, busy) refl

parse_octet_tail :
    (out : Unicode) (n q v : ℕ)
    → v < 64
    → parse_octet (inside out (suc n) (q * 2 ^ (suc n * 6))) (0x80 + v)
      ≡ flush (inside out n ((q * 64 + v) * 2 ^ (n * 6)))
unfolding parse_octet
parse_octet_tail out n q v h =
    ap (λ r. flush (take_octet (inside out (suc n) (q * 2 ^ (suc n * 6))) r)) (trail_count_tail v h)
    ∙ ap flush (take_octet_tail out n q v h)

parse_octet_lead :
    (out : Unicode) (wc n v c : ℕ)
    → trail_count c ≡ (trailing n, v)
    → parse_octet (ready out wc) c ≡ flush (inside out n (v * 2 ^ (n * 6)))
unfolding parse_octet
parse_octet_lead out wc n v c e = ap (λ r. flush (take_octet (ready out wc) r)) e

-- After `c` has been read.
abbrev past : Unicode → ℕ → Parser
past out c = ready (out ++ (c ∷ [])) c

parse_one :
    (out : Unicode) (wc v c : ℕ) (cs : List ℕ)
    → 0 < v
    → v < 128
    → v ≡ c
    → parse_rest (ready out wc) ((0x00 + v) ∷ cs) ≡ parse_rest (past out c) cs
parse_one out wc v c cs pos hv e =
    let same : v * 1 ≡ c = omega arith in
    rw (← same) (
      parse_rest_octet _ _ (0x00 + v) _ (omega arith)
        (parse_octet_lead out wc 0 v _ (trail_count_0 v hv)))

parse_two :
    (out : Unicode) (wc v w c : ℕ) (cs : List ℕ)
    → v < 32
    → w < 64
    → (v * 64 + w) ≡ c
    → parse_rest (ready out wc) ((0xc0 + v) ∷ (0x80 + w) ∷ cs) ≡ parse_rest (past out c) cs
parse_two out wc v w c cs hv hw e =
    let same : (v * 64 + w) * 1 ≡ c = omega arith in
    rw (← same) (
      parse_rest_octet _ _ (0xc0 + v) _ (omega arith)
        (parse_octet_lead out wc 1 v _ (trail_count_1 v hv))
      ∙ parse_rest_octet _ _ (0x80 + w) _ (omega arith) (parse_octet_tail out 0 v w hw))

parse_three :
    (out : Unicode) (wc v w x c : ℕ) (cs : List ℕ)
    → v < 16
    → w < 64
    → x < 64
    → ((v * 64 + w) * 64 + x) ≡ c
    → parse_rest (ready out wc) ((0xe0 + v) ∷ (0x80 + w) ∷ (0x80 + x) ∷ cs)
      ≡ parse_rest (past out c) cs
parse_three out wc v w x c cs hv hw hx e =
    let same : ((v * 64 + w) * 64 + x) * 1 ≡ c = omega arith in
    rw (← same) (
      parse_rest_octet _ _ (0xe0 + v) _ (omega arith)
        (parse_octet_lead out wc 2 v _ (trail_count_2 v hv))
      ∙ parse_rest_octet _ _ (0x80 + w) _ (omega arith) (parse_octet_tail out 1 v w hw)
      ∙ parse_rest_octet _ _ (0x80 + x) _ (omega arith) (parse_octet_tail out 0 (v * 64 + w) x hx))

parse_four :
    (out : Unicode) (wc v w x y c : ℕ) (cs : List ℕ)
    → v < 8
    → w < 64
    → x < 64
    → y < 64
    → (((v * 64 + w) * 64 + x) * 64 + y) ≡ c
    → parse_rest (ready out wc) ((0xf0 + v) ∷ (0x80 + w) ∷ (0x80 + x) ∷ (0x80 + y) ∷ cs)
      ≡ parse_rest (past out c) cs
parse_four out wc v w x y c cs hv hw hx hy e =
    let same : (((v * 64 + w) * 64 + x) * 64 + y) * 1 ≡ c = omega arith in
    rw (← same) (
      parse_rest_octet _ _ (0xf0 + v) _ (omega arith)
        (parse_octet_lead out wc 3 v _ (trail_count_3 v hv))
      ∙ parse_rest_octet _ _ (0x80 + w) _ (omega arith) (parse_octet_tail out 2 v w hw)
      ∙ parse_rest_octet _ _ (0x80 + x) _ (omega arith) (parse_octet_tail out 1 (v * 64 + w) x hx)
      ∙ parse_rest_octet _ _ (0x80 + y) _ (omega arith)
          (parse_octet_tail out 0 ((v * 64 + w) * 64 + x) y hy))

parse_encoded :
    (out : Unicode) (wc c : ℕ) (cs : List ℕ)
    → 0 < c
    → c < 2 ^ 21
    → parse_rest (ready out wc) (utf8_encode c ++ cs) ≡ parse_rest (past out c) cs
unfolding utf8_encode
parse_encoded out wc c cs pos h = ground (
  arith,
  parse_one out wc c c cs,
  parse_two out wc (c / 64) (c % 64) c cs,
  parse_three out wc (c / 4096) (c / 64 % 64) (c % 64) c cs,
  parse_four out wc (c / 262144) (c / 4096 % 64) (c / 64 % 64) (c % 64) c cs,
)

-- A character that UTF-8 can carry in a C string.
abbrev pub IsCarried : ℕ → Type 0
IsCarried c = (0 < c) × (c < 2 ^ 21)

parse_cons :
    (out : Unicode) (wc c : ℕ) (cs : Unicode)
    → 0 < c
    → c < 2 ^ 21
    → parse_rest (ready out wc) (utf8_encode_all (c ∷ cs))
      ≡ parse_rest (past out c) (utf8_encode_all cs)
unfolding utf8_encode_all
parse_cons out wc c cs pos h = parse_encoded out wc c (utf8_encode_all cs) pos h

parse_rest-encoded :
    (out : Unicode) (wc : ℕ) (cs : Unicode)
    → All IsCarried cs
    → parse_rest (ready out wc) (utf8_encode_all cs) ≡ out ++ cs
parse_rest-encoded out wc [] h = unfold parse_rest utf8_encode_all in sym (append-nil out)
parse_rest-encoded out wc (c ∷ cs) ((pos, lt), h) =
    parse_cons out wc c cs pos lt
    ∙ parse_rest-encoded (out ++ (c ∷ [])) c cs h
    ∙ append_assoc out (c ∷ []) cs

-- Parsing the UTF-8 form of a string of characters that are not zero and are below 2 ^ 21 gives the
-- string.
pub utf8_parse-utf8_encode_all :
    (cs : Unicode) → All IsCarried cs → utf8_parse (utf8_encode_all cs) ≡ cs
unfolding utf8_parse
utf8_parse-utf8_encode_all cs h = parse_rest-encoded [] 0 cs h
