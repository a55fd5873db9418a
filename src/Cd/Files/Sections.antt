-- ===== src/Cd/Files/Sections.antt =====
-- A driver joins the records of a file, of which each but the last says that it is continued.
use native.Mathlib.Nat.{mod-eq_of_lt}
use fsview.Base
use fsview.Base.{
  All, suc, ℕ, ◌+◌, ◌-◌, ◌/◌, ◌%◌, ◌^◌, ◌≤◌, ◌<◌, ◌≡◌, ◌⊎◌, inl, inr, refl, ap, arith, bit_and,
  bit_or, true, false, Option, none, some, List, [], ◌∷◌, if◌then◌else◌, ◌==◌, ◌>>=◌, map,
}
use fsview.Base.Words.{sub64}
use fsview.Extent.{Extent, Media}
use fsview.Device.{Colonies, within_disk}
use fsview.Cd.{DirectoryEntry}
use fsview.Cd.Files.{tb_cont, sle64, extent_entry, file_entries}

-- The places and the lengths of a file's sections; none where the last record is continued.
unfoldable pub sections : List DirectoryEntry → Option (List (ℕ × ℕ))
sections [] = none
sections (e ∷ []) =
    if e.file_flags / 128 % 2 == 0 then some ((e.extent_lba, e.length_field) ∷ []) else none
sections (e ∷ d ∷ es) =
    if e.file_flags / 128 % 2 == 0
    then none
    else (sections (d ∷ es) >>= (λ rest. some ((e.extent_lba, e.length_field) ∷ rest)))

-- Where the extents of a file are on the target, in blocks that a record can name.
abbrev pub Located : ℕ → Media → Colonies → List Extent → List ℕ → Type 0
Located blk_sz media c [] [] = Unit
Located blk_sz media c [] (p ∷ ps) = ⊥
Located blk_sz media c (x ∷ xs) [] = ⊥
Located blk_sz media c (x ∷ xs) (p ∷ ps) =
    (within_disk media x c ≡ some p) × (p / blk_sz < 2 ^ 32) × Located blk_sz media c xs ps

abbrev pub sum : List ℕ → ℕ
sum [] = 0
sum (n ∷ ns) = n + sum ns

-- The file ends in its last extent. A record has 32 bits for a length and a block.
abbrev pub EndsInLast : ℕ → List Extent → Type 0
EndsInLast length [] = ⊥
EndsInLast length (x ∷ []) = (length ≤ x.length) × (x.length < 2 ^ 63) × (length < 2 ^ 32)
EndsInLast length (x ∷ y ∷ xs) =
    (x.length < length)
    × (length < 2 ^ 63)
    × (x.length < 2 ^ 32)
    × EndsInLast (length - x.length) (y ∷ xs)

-- The extents together are shorter than the file.
abbrev pub FallsShort : ℕ → List Extent → Type 0
FallsShort length [] = 0 < length
FallsShort length (x ∷ xs) =
    (x.length < length) × (length < 2 ^ 63) × FallsShort (length - x.length) xs

-- The sections of a file with this length, in these blocks.
pub IsRecorded : ℕ → List ℕ → ℕ → List DirectoryEntry → Type 0
IsRecorded blk_sz starts length dies =
    (parts : List (ℕ × ℕ)) × (sections dies ≡ some parts)
    × (map (λ (s : ℕ × ℕ). s.0) parts ≡ map (λ p. p / blk_sz) starts)
    × (sum (map (λ (s : ℕ × ℕ). s.1) parts) ≡ length)

flags_cleared : (f : ℕ) → (f ≡ 0) ⊎ (f ≡ 128) → bit_and f (2 ^ 8 - 1 - tb_cont) ≡ 0
flags_cleared f (inl e) = rw e refl
flags_cleared f (inr e) = rw e refl

flags_set : (f : ℕ) → (f ≡ 0) ⊎ (f ≡ 128) → bit_or f tb_cont ≡ 128
flags_set f (inl e) = rw e refl
flags_set f (inr e) = rw e refl

last_fits : (a b : ℕ) → a ≤ b → b < 2 ^ 63 → sle64 a b ≡ true
last_fits a b h small = ground arith

more_left : (a b : ℕ) → b < a → a < 2 ^ 63 → sle64 a b ≡ false
more_left a b h small = ground arith

last_entry :
    (blk_sz p length : ℕ) (x : Extent) (die : DirectoryEntry)
    → (die.file_flags ≡ 0) ⊎ (die.file_flags ≡ 128)
    → p / blk_sz < 2 ^ 32
    → length ≤ x.length
    → x.length < 2 ^ 63
    → length < 2 ^ 32
    → extent_entry blk_sz p x length die
      ≡ record die { extent_lba = p / blk_sz; file_flags = 0; length_field = length }
unfolding extent_entry
last_entry blk_sz p length x die flags near fits small short =
    rw (last_fits length x.length fits small, flags_cleared die.file_flags flags)
      (cc (mod-eq_of_lt near, mod-eq_of_lt short))

continued_entry :
    (blk_sz p length : ℕ) (x : Extent) (die : DirectoryEntry)
    → (die.file_flags ≡ 0) ⊎ (die.file_flags ≡ 128)
    → p / blk_sz < 2 ^ 32
    → x.length < length
    → length < 2 ^ 63
    → x.length < 2 ^ 32
    → extent_entry blk_sz p x length die
      ≡ record die { extent_lba = p / blk_sz; file_flags = 128; length_field = x.length }
unfolding extent_entry
continued_entry blk_sz p length x die flags near over small short =
    rw (more_left length x.length over small, flags_set die.file_flags flags)
      (cc (mod-eq_of_lt near, mod-eq_of_lt short))

sections_cons :
    (e : DirectoryEntry) (dies : List DirectoryEntry) (parts : List (ℕ × ℕ))
    → e.file_flags ≡ 128
    → sections dies ≡ some parts
    → sections (e ∷ dies) ≡ some ((e.extent_lba, e.length_field) ∷ parts)
unfolding sections
sections_cons e [] parts flags h = cc
sections_cons e (d ∷ dies) parts flags h = rw (flags, h) refl

no_entries :
    (blk_sz : ℕ) (media : Media) (c : Colonies) (length : ℕ) (die : DirectoryEntry)
    → file_entries blk_sz media c [] length die ≡ some []
unfolding file_entries
no_entries blk_sz media c length die = refl

file_entries_step :
    (blk_sz : ℕ) (media : Media) (c : Colonies) (x : Extent) (xs : List Extent) (length left p : ℕ)
    (die die' : DirectoryEntry) (dies : List DirectoryEntry)
    → within_disk media x c ≡ some p
    → extent_entry blk_sz p x length die ≡ die'
    → sub64 length x.length ≡ left
    → file_entries blk_sz media c xs left die' ≡ some dies
    → file_entries blk_sz media c (x ∷ xs) length die ≡ some (die' ∷ dies)
unfolding file_entries
file_entries_step blk_sz media c x xs length left p die die' dies at entry e ih =
    rw (at, entry, e, ih) refl

-- The records of a file whose extents are in blocks below 2 ^ 32 of the target, and which ends in the
-- last of them, join to the file: its sections begin at the blocks of the extents, in their order, and their
-- lengths add up to the length of the file. The extents before the last, and what the last one holds
-- of the file, have lengths below 2 ^ 32.
pub file_entries-IsRecorded :
    (blk_sz : ℕ) (media : Media) (c : Colonies) (xs : List Extent) (length : ℕ)
    (die : DirectoryEntry) (starts : List ℕ)
    → (die.file_flags ≡ 0) ⊎ (die.file_flags ≡ 128)
    → Located blk_sz media c xs starts
    → EndsInLast length xs
    → (dies : List DirectoryEntry) × (file_entries blk_sz media c xs length die ≡ some dies)
      × IsRecorded blk_sz starts length dies
unfolding sections IsRecorded
file_entries-IsRecorded blk_sz media c [] length die starts flags located ends = absurd ends
file_entries-IsRecorded blk_sz media c (x ∷ xs) length die [] flags located ends = absurd located
file_entries-IsRecorded blk_sz media c (x ∷ []) length die (p ∷ p' ∷ starts) flags (at, near, bad)
      ends =
    absurd bad
file_entries-IsRecorded blk_sz media c (x ∷ []) length die (p ∷ []) flags (at, near, end)
      (fits, small, short) =
    let entry = record die { extent_lba = p / blk_sz; file_flags = 0; length_field = length } in
    (
      entry ∷ [],
      file_entries_step blk_sz media c x [] length (sub64 length x.length) p die entry [] at
          (last_entry blk_sz p length x die flags near fits small short) refl
          (no_entries blk_sz media c (sub64 length x.length) entry),
      ((p / blk_sz, length) ∷ [], refl, refl, omega arith),
    )
file_entries-IsRecorded blk_sz media c (x ∷ y ∷ xs) length die (p ∷ starts) flags
      (at, near, located) (over, small, short, ends) =
    let entry = record die { extent_lba = p / blk_sz; file_flags = 128; length_field = x.length } in
    let left : sub64 length x.length ≡ length - x.length = omega arith in
    let (dies, e, (parts, joined, firsts, total)) =
      file_entries-IsRecorded blk_sz media c (y ∷ xs) (length - x.length) entry starts (inr refl)
        located ends in
    (
      entry ∷ dies,
      file_entries_step blk_sz media c x (y ∷ xs) length (length - x.length) p die entry dies at
          (continued_entry blk_sz p length x die flags near over small short) left e,
      (
        (p / blk_sz, x.length) ∷ parts,
        sections_cons entry dies parts refl joined,
        ap (λ t. p / blk_sz ∷ t) firsts,
        omega (arith, total),
      ),
    )

continued_flags :
    (blk_sz p length : ℕ) (x : Extent) (die : DirectoryEntry)
    → (die.file_flags ≡ 0) ⊎ (die.file_flags ≡ 128)
    → x.length < length
    → length < 2 ^ 63
    → (extent_entry blk_sz p x length die).file_flags ≡ 128
unfolding extent_entry
continued_flags blk_sz p length x die flags over small =
    rw (more_left length x.length over small, flags_set die.file_flags flags) refl

sections_open :
    (e : DirectoryEntry) (dies : List DirectoryEntry)
    → e.file_flags ≡ 128
    → sections dies ≡ none
    → sections (e ∷ dies) ≡ none
unfolding sections
sections_open e [] flags h = rw flags refl
sections_open e (d ∷ dies) flags h = rw (flags, h) refl

-- A file that is longer than its extents together, for it has a hole, or that has none, is given
-- one record for each extent, and each of them says that it is continued, so a driver cannot join them.
pub file_entries-cut :
    (blk_sz : ℕ) (media : Media) (c : Colonies) (xs : List Extent) (length : ℕ)
    (die : DirectoryEntry) (starts : List ℕ)
    → (die.file_flags ≡ 0) ⊎ (die.file_flags ≡ 128)
    → Located blk_sz media c xs starts
    → FallsShort length xs
    → (dies : List DirectoryEntry) × (file_entries blk_sz media c xs length die ≡ some dies)
      × (Base.length dies ≡ Base.length xs)
      × All (λ (e : DirectoryEntry). e.file_flags ≡ 128) dies
      × (sections dies ≡ none)
unfolding sections
file_entries-cut blk_sz media c [] length die starts flags located cut =
    ([], no_entries blk_sz media c length die, refl, tt, refl)
file_entries-cut blk_sz media c (x ∷ xs) length die [] flags located cut = absurd located
file_entries-cut blk_sz media c (x ∷ xs) length die (p ∷ starts) flags (at, near, located)
      (over, small, cut) =
    let entry = extent_entry blk_sz p x length die in
    let continued = continued_flags blk_sz p length x die flags over small in
    let left : sub64 length x.length ≡ length - x.length = omega arith in
    let (dies, e, many, each, broken) =
      file_entries-cut blk_sz media c xs (length - x.length) entry starts (inr continued) located
        cut in
    (
      entry ∷ dies,
      file_entries_step blk_sz media c x xs length (length - x.length) p die entry dies at refl left
          e,
      ap suc many,
      (continued, each),
      sections_open entry dies continued broken,
    )
