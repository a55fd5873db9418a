-- ===== src/Cd/Written.antt =====
-- The records that writeEntry puts into a folder are the ones that a driver reads.
use mathlib.Core.List.{append_assoc}
use native.Mathlib.Nat.{mod-eq_of_lt, pow-le-pow_right}
use fsview.Base.{
  ℕ, suc, ◌+◌, ◌-◌, ◌*◌, ◌/◌, ◌%◌, ◌^◌, ◌≤◌, ◌<◌, ◌≡◌, refl, ap, sym, ◌∙◌, arith, Bool, true, false,
  some, List, [], ◌∷◌, ◌++◌, length, take, length-append, length-replicate, length-take, All,
  if◌then◌else◌, leb, ltb, ◌>>=◌, map,
}
use fsview.Extent.{padding}
use fsview.Extent.Rounding.{padding_aligns}
use fsview.Cd.{
  DirectoryEntry, zeros, header_bytes, after_size, entry_bytes, write_entry, write_entries,
  wrap_folder, text_size,
}
use fsview.Cd.Records.{read_folder, IsRecord, gap, laid, read-laid, length_laid, laid_flush}

-- What is written for an entry: its fields, and the name with a zero where it has an even length.
abbrev pub record_of : DirectoryEntry × List ℕ → List ℕ
record_of (die, enc) = header_bytes die ++ take (text_size die) (enc ++ (0 ∷ []))

-- The size of an entry fits its encoded name, which a record can hold.
pub record IsNamed (named : DirectoryEntry × List ℕ) : Type 0 where
  pub sized : named.0.entry_sz ≡ (34 + length named.1) / 2 * 2
  pub some_name : 1 ≤ length named.1
  pub short_name : length named.1 ≤ 221

length-after_size : (die : DirectoryEntry) → length (after_size die) ≡ 32
unfolding after_size
length-after_size die = refl

length-record_of :
    (die : DirectoryEntry) (enc : List ℕ)
    → IsNamed (die, enc)
    → length (record_of (die, enc)) ≡ die.entry_sz
length-record_of die enc h =
    let text : text_size die ≡ die.entry_sz - 33 = omega (arith, h.sized) in
    omega (
      arith,
      h.sized,
      text,
      length-after_size die,
      length-append (header_bytes die) (take (text_size die) (enc ++ (0 ∷ []))),
      length-take (text_size die) (enc ++ (0 ∷ [])),
      length-append enc (0 ∷ []),
    )

record_of-IsRecord :
    (die : DirectoryEntry) (enc : List ℕ) → IsNamed (die, enc) → IsRecord (record_of (die, enc))
record_of-IsRecord die enc h =
    let long = length-record_of die enc h in (omega (arith, long, h.sized), omega (arith, h.sized))

if_zeros : (b : Bool) (n : ℕ) → (if b then zeros n else []) ≡ zeros (if b then n else 0)
if_zeros true n = refl
if_zeros false n = refl

write_entry_lem :
    (blk : ℕ) (die : DirectoryEntry) (enc out : List ℕ)
    → IsNamed (die, enc)
    → write_entry blk die enc out
      ≡ some (
        length (out ++ zeros (gap blk (length out) (record_of (die, enc)))),
        (out ++ zeros (gap blk (length out) (record_of (die, enc)))) ++ record_of (die, enc),
      )
unfolding write_entry
write_entry_lem blk die enc out h =
    let long = length-record_of die enc h in
    let text : text_size die ≡ die.entry_sz - 33 = omega (arith, h.sized) in
    let whole : leb (0 + text_size die) (length (enc ++ (0 ∷ []))) ≡ true =
      ground (arith, h.sized, text, length-append enc (0 ∷ [])) in
    let pad = padding (length out) blk in
    let same =
      if_zeros (ltb pad die.entry_sz) pad
      ∙ ap (λ t. zeros (if ltb pad t then pad else 0)) (sym long) in
    rw (whole, ◌>>=◌) (ap (λ z. some (length (out ++ z), (out ++ z) ++ record_of (die, enc))) same)

regroup :
    (f : ℕ → List ℕ) (out r : List ℕ) (g : ℕ)
    → ((out ++ zeros g) ++ r) ++ f (length ((out ++ zeros g) ++ r))
      ≡ out ++ (zeros g ++ (r ++ f (length out + g + length r)))
regroup f out r g =
    let long : length ((out ++ zeros g) ++ r) ≡ length out + g + length r = omega (
      arith,
      length-append (out ++ zeros g) r,
      length-append out (zeros g),
      length-replicate {A = ℕ} g 0,
    ) in
    ap (λ p. ((out ++ zeros g) ++ r) ++ f p) long ∙ simp append_assoc

write_entries-laid :
    (blk : ℕ) (dies : List (DirectoryEntry × List ℕ)) (out : List ℕ)
    → All IsNamed dies
    → (out' : List ℕ) × (write_entries blk dies out ≡ some out')
      × (wrap_folder blk out' ≡ out ++ laid blk (length out) (map record_of dies))
unfolding write_entries wrap_folder
write_entries-laid blk [] out hs = (out, refl, refl)
write_entries-laid blk ((die, enc) ∷ dies) out (h, hs) =
    let r = record_of (die, enc) in
    let (out', e, w) =
      write_entries-laid blk dies ((out ++ zeros (gap blk (length out) r)) ++ r) hs in
    (
      out',
      rw (write_entry_lem blk die enc out h) e,
      w ∙ regroup (λ p. laid blk p (map record_of dies)) out r (gap blk (length out) r),
    )

All-records :
    (dies : List (DirectoryEntry × List ℕ)) → All IsNamed dies → All IsRecord (map record_of dies)
All-records [] hs = tt
All-records ((die, enc) ∷ dies) (h, hs) = (record_of-IsRecord die enc h, All-records dies hs)

-- The bytes of a folder that is written: whole blocks, in which a driver finds the two entries in front
-- and a record for each of the others.
pub ReadsBack : ℕ → DirectoryEntry → DirectoryEntry → List (DirectoryEntry × List ℕ) → Type 0
ReadsBack blk dot dotdot dies =
    (out : List ℕ) × (write_entries blk dies (entry_bytes dot ++ entry_bytes dotdot) ≡ some out)
    × (length (wrap_folder blk out) % blk ≡ 0)
    × (read_folder blk (2 * length dies + 5) 0 (wrap_folder blk out)
        ≡ some (entry_bytes dot ∷ entry_bytes dotdot ∷ map record_of dies))

entry_bytes-IsRecord : (e : DirectoryEntry) → e.entry_sz ≡ 34 → IsRecord (entry_bytes e)
entry_bytes-IsRecord e h =
    let long = length-append (after_size e) ((e.name_data % 256) ∷ []) in
    (omega (arith, long, length-after_size e), omega arith)

-- Two records of 34 bytes fit the first block.
front_laid :
    (k : ℕ) (a b : List ℕ) (rs : List (List ℕ))
    → 9 ≤ k
    → k < 63
    → length a ≡ 34
    → length b ≡ 34
    → laid (2 ^ k) 0 (a ∷ b ∷ rs) ≡ (a ++ b) ++ laid (2 ^ k) (length (a ++ b)) rs
front_laid k a b rs lo hk ha hb =
    let block : 512 ≤ 2 ^ k = pow-le-pow_right {n = 2} (omega arith) {i = 9} {j = k} lo in
    let start = mod-eq_of_lt {n = 0} {m = 2 ^ k} (omega arith) in
    let second = mod-eq_of_lt {n = 0 + length a} {m = 2 ^ k} (omega arith) in
    let end : 0 + length a + length b ≡ length (a ++ b) = omega (arith, length-append a b) in
    laid_flush k 0 a (b ∷ rs) hk (omega arith) (omega arith)
    ∙ ap (λ t. a ++ t) (laid_flush k (0 + length a) b rs hk (omega arith) (omega arith))
    ∙ ap (λ p. a ++ (b ++ laid (2 ^ k) p rs)) end
    ∙ sym (append_assoc a b (laid (2 ^ k) (length (a ++ b)) rs))

length-entry_bytes : (e : DirectoryEntry) → length (entry_bytes e) ≡ 34
length-entry_bytes e =
    omega (arith, length-append (after_size e) ((e.name_data % 256) ∷ []), length-after_size e)

length-map : (dies : List (DirectoryEntry × List ℕ)) → length (map record_of dies) ≡ length dies
length-map [] = refl
length-map (d ∷ dies) = ap suc (length-map dies)

-- In blocks of 2 ^ k bytes, of at least 512, the two entries in front, of 34 bytes, and entries whose
-- sizes fit their names are written, and the folder reads back: it takes whole blocks, and a
-- driver that refuses records across the end of a block finds exactly these records in their order.
pub write_entries-ReadsBack :
    (k : ℕ) (dot dotdot : DirectoryEntry) (dies : List (DirectoryEntry × List ℕ))
    → 9 ≤ k
    → k < 60
    → dot.entry_sz ≡ 34
    → dotdot.entry_sz ≡ 34
    → All IsNamed dies
    → (2 * length dies + 5) * 2 ^ k < 2 ^ 63
    → ReadsBack (2 ^ k) dot dotdot dies
unfolding wrap_folder ReadsBack
write_entries-ReadsBack k dot dotdot dies lo hk h h' hs small =
    let blk = 2 ^ k in
    let front = entry_bytes dot ++ entry_bytes dotdot in
    let rs = entry_bytes dot ∷ entry_bytes dotdot ∷ map record_of dies in
    let (out, e, w) = write_entries-laid blk dies front hs in
    let flush =
      front_laid k (entry_bytes dot) (entry_bytes dotdot) (map record_of dies) lo (omega arith)
        (length-entry_bytes dot) (length-entry_bytes dotdot) in
    let whole : out ++ zeros (padding (length out) blk) ≡ laid blk 0 rs = w ∙ sym flush in
    let good : All IsRecord rs =
      (entry_bytes-IsRecord dot h, (entry_bytes-IsRecord dotdot h', All-records dies hs)) in
    let count : length rs ≡ length dies + 2 = omega (arith, length-map dies) in
    let size : (2 * length rs + 1) * blk ≡ (2 * length dies + 5) * blk =
      ap (λ n. (2 * n + 1) * blk) count ∙ ap (λ n. n * blk) (omega arith) in
    let room = length_laid k 0 rs lo (omega arith) good (omega arith) in
    let end : length out < 2 ^ 63 =
      omega (arith, ap length whole, length-append out (zeros (padding (length out) blk))) in
    let long : length (out ++ zeros (padding (length out) blk))
        ≡ length out + padding (length out) blk =
      omega (
        arith,
        length-append out (zeros (padding (length out) blk)),
        length-replicate {A = ℕ} (padding (length out) blk) 0,
      ) in
    (
      out,
      e,
      rw long (padding_aligns k (length out) (omega arith) end).0,
      ap (read_folder blk (2 * length dies + 5) 0) whole
          ∙ read-laid k (2 * length dies + 5) 0 rs lo (omega arith) good (omega arith)
              (omega arith),
    )
