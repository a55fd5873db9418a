-- ===== src/Text.antt =====
-- impl/strdec.h, impl/strdec.cpp, impl/strenc.h, impl/strenc.cpp and the start of impl/strenc.inc:
-- the decoders of C strings, the corrections of Unicode strings, and the packing of characters.
-- A byte is a number below 256, a character (wchar_t) one below 2 ^ 32. A C string is the list of
-- its bytes up to its end or the first zero. `none` is undefined behaviour.
pub mod Scan
pub mod Leads
pub mod Length
pub mod Utf8
pub mod Correct
pub mod Hangul
pub mod Compress
pub mod Euro
pub mod Legal
mod Tests
use fsview.Base.{
  ℕ, ◌+◌, ◌-◌, ◌*◌, ◌/◌, ◌%◌, ◌^◌, min, Bool, true, false, Option, none, some, List, [], ◌∷◌, ◌++◌,
  bit_and, bit_or, if◌then◌else◌, ◌==◌, ltb, leb, ◌>>=◌, ◌&&◌, length, take, drop,
}
use fsview.Base.SortedMap.{lookup}

abbrev pub Unicode : Type 0
Unicode = List ℕ

-- UnChar::UCS2
abbrev pub un_char : ℕ
un_char = 0xfffd

-- The answer of trailCount: CONTINUED, FORBIDDEN, or a number of trailing bytes.
pub data Leftover : Type 0 where
  continued : Leftover
  forbidden : Leftover
  trailing : ℕ → Leftover

-- The answer, and the byte with its marker bits cleared.
unfoldable pub trail_count : ℕ → Leftover × ℕ
trail_count c =
    if bit_and c 0x80 == 0
    then (trailing 0, c)
    else if bit_and c 0x40 == 0
    then (continued, bit_and c 0x3f)
    else if bit_and c 0x20 == 0
    then (trailing 1, bit_and c 0x1f)
    else if bit_and c 0x10 == 0
    then (trailing 2, bit_and c 0x0f)
    else if bit_and c 0x08 == 0
    then (trailing 3, bit_and c 0x07)
    else (forbidden, c)

-- The locals of UTF8Homebrew::parse.
pub record Parser : Type 0 where
  pub out : Unicode
  pub left : ℕ
  pub wc : ℕ

-- The last line of the loop: a finished character goes out.
abbrev pub flush : Parser → Parser
flush p = if p.left == 0 then record p { out = p.out ++ (p.wc ∷ []) } else p

-- An unexpected restart leaves a placeholder for the character that was not finished.
abbrev pub restart : Parser → Unicode
restart p = if p.left == 0 then p.out else p.out ++ (un_char ∷ [])

abbrev pub take_octet : Parser → Leftover × ℕ → Parser
take_octet p (continued, octet) =
    if p.left == 0
    then record p { wc = un_char }
    else record p { left = p.left - 1; wc = bit_or p.wc (octet * 2 ^ ((p.left - 1) * 6)) }
take_octet p (forbidden, octet) = record { out = restart p; left = 0; wc = un_char }
take_octet p (trailing n, octet) = record { out = restart p; left = n; wc = octet * 2 ^ (n * 6) }

unfoldable pub parse_octet : Parser → ℕ → Parser
unfolding trail_count
parse_octet p c = flush (take_octet p (trail_count c))

unfoldable pub parse_rest : Parser → List ℕ → Unicode
unfolding parse_octet
parse_rest p [] = restart p
parse_rest p (c ∷ cs) = if c == 0 then restart p else parse_rest (parse_octet p c) cs

unfoldable pub utf8_parse : List ℕ → Unicode
unfolding parse_rest
utf8_parse source = parse_rest (record { out = []; left = 0; wc = 0 }) source

-- A byte as a wchar_t: where char is signed, a byte of 128 or more is negative.
abbrev pub widen : Bool → ℕ → ℕ
widen signed c = if signed && leb 128 c then 2 ^ 32 - 256 + c else c

-- ISO88591Flat::parse
unfoldable pub iso_parse : Bool → List ℕ → Unicode
iso_parse signed [] = []
iso_parse signed (c ∷ cs) = if c == 0 then [] else widen signed c ∷ iso_parse signed cs

-- What a CharDeco decides for one character, and what it writes for it.
pub record Deco : Type 0 where
  pub irreguchar : ℕ → Bool
  pub decompochar : Unicode → ℕ → Option Unicode

-- CharDeco::irregular: the position of the first irregular character.
unfoldable pub irregular : Deco → Unicode → Option ℕ
irregular d [] = none
irregular d (c ∷ cs) =
    let rest = irregular d cs in
    if d.irreguchar c then some 0 else (rest >>= (λ pos. some (pos + 1)))

-- The loop of CharDeco::decompose.
unfoldable pub decompose_from : Deco → Unicode → Unicode → Option Unicode
decompose_from d canonical [] = some canonical
decompose_from d canonical (c ∷ cs) = do
  canonical' ← d.decompochar canonical c
  decompose_from d canonical' cs

unfoldable pub decompose : Deco → Unicode → ℕ → Option Unicode
unfolding decompose_from
decompose d decoded start = decompose_from d (take start decoded) (drop start decoded)

abbrev pub correct_from : Deco → Unicode → Option ℕ → Option Unicode
correct_from d decoded none = some decoded
correct_from d decoded (some start) = decompose d decoded start

-- IUniDeco::correct
unfoldable pub correct : Deco → Unicode → Option Unicode
unfolding irregular decompose
correct d decoded = correct_from d decoded (irregular d decoded)

-- CMapDeco over its map. For a character that is not in the map the code reads `end()->first`.
abbrev pub map_append : Unicode → Option Unicode → Option Unicode
map_append out none = none
map_append out (some sequence) = some (out ++ sequence)

abbrev pub is_some : {A : Type 0} → Option A → Bool
is_some none = false
is_some (some a) = true

unfoldable pub map_deco : List (ℕ × Unicode) → Deco
map_deco illegal = record {
  irreguchar = λ wc. is_some (lookup wc illegal);
  decompochar = λ out wc. map_append out (lookup wc illegal);
}

abbrev pub s_base : ℕ
s_base = 0xAC00

abbrev pub l_base : ℕ
l_base = 0x1100

abbrev pub v_base : ℕ
v_base = 0x1161

abbrev pub t_base : ℕ
t_base = 0x11A7

abbrev pub n_count : ℕ
n_count = 588

abbrev pub t_count : ℕ
t_count = 28

abbrev pub s_count : ℕ
s_count = 11172

-- HangDeco::decompochar, without what it is appended to.
unfoldable pub jamos : ℕ → Unicode
jamos wc =
    if ltb wc s_base
    then wc ∷ []
    else if leb s_count (wc - s_base)
    then wc ∷ []
    else let index : ℕ = wc - s_base in
      (l_base + index / n_count)
      ∷ (v_base + index % n_count / t_count)
      ∷ (if index % t_count == 0 then [] else (t_base + index % t_count) ∷ [])

unfoldable pub hang_deco : Deco
unfolding jamos
hang_deco = record {
  irreguchar = λ wc. leb s_base wc && ltb wc (s_base + s_count);
  decompochar = λ out wc. some (out ++ jamos wc);
}

-- A character packer: the bytes that packChar sinks, and charSize().
pub record Pack : Type 0 where
  pub char_size : ℕ
  pub pack_char : ℕ → List ℕ

unfoldable pub char_ansi : Pack
char_ansi = record { char_size = 1; pack_char = λ wc. wc % 256 ∷ [] }

unfoldable pub char_ucs2 : Pack
char_ucs2 = record { char_size = 2; pack_char = λ wc. wc / 256 % 256 ∷ wc % 256 ∷ [] }

unfoldable pub char_lfn : Pack
char_lfn = record { char_size = 2; pack_char = λ wc. wc % 256 ∷ wc / 256 % 256 ∷ [] }

-- CharType::compress into a string.
unfoldable pub compress : Pack → Unicode → List ℕ
compress pack [] = []
compress pack (c ∷ cs) = pack.pack_char c ++ compress pack cs

-- CharType::compress into `size` bytes: what is written, and the count of characters.
unfoldable pub compress_into : Pack → ℕ → Unicode → List ℕ × ℕ
unfolding compress
compress_into pack size source =
    let max_size : ℕ = min (length source) (size / pack.char_size) in
    (compress pack (take max_size source), max_size)
