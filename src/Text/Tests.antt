-- ===== src/Text/Tests.antt =====
-- Decoding, correction and packing at concrete strings.
use fsview.Base.{ℕ, ◌≡◌, refl, arith, true, List, [], ◌∷◌, some, none}
use fsview.Base.SortedMap.{lookup}
use fsview.Text.{
  Unicode, utf8_parse, parse_rest, parse_octet, trail_count, iso_parse, correct, map_deco,
}
use fsview.Text.Utf8.{utf8_encode_all, utf8_parse-utf8_encode_all}
use fsview.Text.Correct.{spell_all, spelled, map_deco_undefined, map_deco_defined}
use fsview.Text.Euro.{euro_table, euro_deco}

-- A letter, an accented letter, a Hangul syllable and an emoji.
abbrev mixed : Unicode
mixed = 0x61 ∷ 0xe9 ∷ 0xd55c ∷ 0x1f600 ∷ []

utf8_run :
    utf8_parse (0x61 ∷ 0xc3 ∷ 0xa9 ∷ 0x80 ∷ 0xe4 ∷ 0x00 ∷ 0x62 ∷ [])
    ≡ 0x61 ∷ 0xe9 ∷ 0xfffd ∷ 0xfffd ∷ []
unfolding utf8_parse parse_rest parse_octet trail_count
utf8_run = refl

-- Where char is signed, a Latin-1 letter becomes a negative wchar_t.
iso_run : iso_parse true (0xe9 ∷ []) ≡ 0xffffffe9 ∷ []
unfolding iso_parse
iso_run = refl

utf8_parse-utf8_encode_all_example : utf8_parse (utf8_encode_all mixed) ≡ mixed
utf8_parse-utf8_encode_all_example = utf8_parse-utf8_encode_all mixed (omega arith)

abbrev malformed : List ℕ
malformed = 0x80 ∷ 0xe4 ∷ []

abbrev small_map : List (ℕ × Unicode)
small_map = (0xe9, 0x65 ∷ 0x301 ∷ []) ∷ []

map_deco_undefined_example : correct (map_deco small_map) (0x63 ∷ 0xe9 ∷ 0x61 ∷ []) ≡ none
unfolding lookup
map_deco_undefined_example = map_deco_undefined small_map (0x63 ∷ []) 0xe9 [] 0x61 [] (λ e. cc) refl

map_deco_defined_example :
    correct (map_deco small_map) (0x63 ∷ 0xe9 ∷ [])
    ≡ some (spell_all (spelled small_map) (0x63 ∷ 0xe9 ∷ []))
unfolding lookup
map_deco_defined_example =
    map_deco_defined small_map (0x63 ∷ []) (0xe9 ∷ []) (refl, tt) ((λ e. cc), tt)

accent_run : correct euro_deco (0x63 ∷ 0xe9 ∷ []) ≡ some (0x63 ∷ 0x65 ∷ 0x301 ∷ [])
unfolding euro_deco euro_table map_deco correct lookup
accent_run = refl
