-- ===== src/Names/Crc.antt =====
-- Crc32: the table against the polynomial division that it stands for, and where the sum is defined.
use fsview.Base.{
  ℕ, zero, suc, ◌-◌, ◌/◌, ◌%◌, ◌^◌, ◌<◌, ◌≤◌, ◌≡◌, refl, Bool, true, false, bit_xor, if◌then◌else◌,
  ◌==◌, List, [], ◌∷◌, ◌++◌, some, none, Option, arith, get_elem?, All, leb, ltb, ltb→lt,
  Option-cases, inl, inr,
}
use fsview.Names.Table.{legacy_crc}
use fsview.Names.{crc_step, crc_from, crc32}
use fsview.Text.Scan.{passes, passes_each}

-- Division by the reflected polynomial of CRC-32, bit by bit.
unfoldable pub divide : ℕ → ℕ → ℕ
divide zero r = r
divide (suc n) r = divide n (if r % 2 == 0 then r / 2 else bit_xor (r / 2) 0xedb88320)

is_entry : Option ℕ → ℕ → Bool
is_entry none v = false
is_entry (some t) v = t == v

is_entry-eq : (o : Option ℕ) (v : ℕ) → is_entry o v ≡ true → o ≡ some v
unfolding is_entry
is_entry-eq none v e = cc
is_entry-eq (some t) v e = let same : t ≡ v = ground arith in rw same refl

agrees : ℕ → Bool
unfolding is_entry divide
agrees i = is_entry (get_elem? legacy_crc i) (divide 8 i)

stays_below : ℕ → Bool
stays_below a = passes (λ b. ltb (bit_xor a b) 256) 0 128

bit_xor-lt : (a b : ℕ) → a < 256 → b < 128 → bit_xor a b < 256
bit_xor-lt a b ha hb =
    let table : passes stays_below 0 256 ≡ true = unfold passes stays_below in refl in
    let row = passes_each stays_below 0 256 table a (omega arith) ha in
    ltb→lt (bit_xor a b) 256
      (unfold stays_below in passes_each _ 0 128 row b (omega arith) (omega arith))

-- One round of Crc32 on a byte below 128 xors the upper part of the sum with the remainder that the
-- bitwise division leaves of the lowest byte and the new one.
pub crc_step_lem :
    (crc c : ℕ)
    → c < 128
    → crc_step crc c ≡ some (bit_xor (divide 8 (bit_xor (crc % 256) c)) (crc / 256))
unfolding crc_step
crc_step_lem crc c hc =
    let lt : bit_xor (crc % 256) c < 256 = bit_xor-lt (crc % 256) c (omega arith) hc in
    let table : passes agrees 0 256 ≡ true = unfold passes agrees is_entry divide in refl in
    let i : ℕ = bit_xor (crc % 256) c in
    let entry : get_elem? legacy_crc i ≡ some (divide 8 i) =
      is_entry-eq _ _ (unfold agrees in passes_each agrees 0 256 table i (omega arith) lt) in
    let ascii : leb 128 c ≡ false = ground arith in rw (ascii, entry) refl

crc_from_undefined :
    (crc : ℕ) (before after : List ℕ) (c : ℕ)
    → All (λ b. 0 < b) before
    → 128 ≤ c
    → crc_from crc (before ++ c ∷ after) ≡ none
unfolding crc_from crc_step
crc_from_undefined crc [] after c h hc =
    let nonzero : (c == 0) ≡ false = ground arith in
    let signed : leb 128 c ≡ true = ground arith in rw (nonzero, signed) refl
crc_from_undefined crc (b ∷ before) after c (hb, h) hc =
    let nonzero : (b == 0) ≡ false = ground arith in
    elim (Option-cases (crc_step crc b)) [
      | inl e ↦ rw (nonzero, e) refl
      | inr (crc', e) ↦ rw (nonzero, e) (crc_from_undefined crc' before after c h hc)
    ]

-- A label with a byte of 128 or more before its end makes Crc32 read outside of its table.
pub crc32_undefined :
    (before after : List ℕ) (c : ℕ)
    → All (λ b. 0 < b) before
    → 128 ≤ c
    → crc32 (before ++ c ∷ after) ≡ none
unfolding crc32
crc32_undefined before after c h hc = rw (crc_from_undefined (2 ^ 32 - 1) before after c h hc) refl
