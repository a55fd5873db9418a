-- ===== src/Burner/Reading.antt =====
-- What an extent's bytes are: a window of its medium.
use fsview.Base.{
  ℕ, ◌+◌, ◌-◌, ◌≤◌, ◌<◌, ◌≡◌, ◌∙◌, Option, none, some, List, [], ◌∷◌, ◌++◌, arith, length,
  length-take, length-drop, length-replicate, length-append, get_elem?, get_elem?-take,
  get_elem?-drop, get_elem?-replicate, get_elem?-append_left, get_elem?-append_right, if◌then◌else◌,
  ◌==◌, replicate, take, drop, inl, inr, le_or_lt, eq_or_ne, ◌>>=◌, >>=-eq-some,
}
use fsview.Extent.{Extent, Media}
use fsview.Burner.{appended, slice, contents_of, read_contents}
use fsview.Burner.Image.{total, source_at}

-- What an extent adds when it is burned; an empty one is skipped.
unfoldable pub extent_bytes : Media → Extent → Option (List ℕ)
extent_bytes media x = if x.length == 0 then some [] else appended media x

-- The bytes of all extents, in order.
unfoldable pub bytes_of : Media → List Extent → Option (List ℕ)
bytes_of media [] = some []
bytes_of media (x ∷ xs) = do b ← extent_bytes media x; bs ← bytes_of media xs; some (b ++ bs)

-- The byte that VectBurner::append takes of a medium: zero where the medium is not in memory.
abbrev pub byte_in : Option (List ℕ) → ℕ → Option ℕ
byte_in none off = some 0
byte_in (some bytes) off = get_elem? bytes off

abbrev pub byte_at : Media → Option (Option ℕ × ℕ) → Option ℕ
byte_at media none = none
byte_at media (some (m, off)) = byte_in (contents_of media m) off

slice_lem :
    (off len : ℕ) (bytes : List ℕ) {b : List ℕ}
    → slice off len bytes ≡ some b
    → (off + len ≤ length bytes) × (take len (drop off bytes) ≡ b)
slice_lem off len bytes e = ground arith

read_contents_lem :
    (c : Option (List ℕ)) (off len : ℕ) {b : List ℕ}
    → read_contents c off len ≡ some b
    → (length b ≡ len) × ((i : ℕ) → i < len → get_elem? b i ≡ byte_in c (off + i))
read_contents_lem none off len {b} e =
    let same : replicate len 0 ≡ b = cc in
    (rw (← same) (length-replicate len 0), λ i h. rw (← same) (get_elem?-replicate len i 0 h))
read_contents_lem (some bytes) off len e =
    let (fits, same) = slice_lem off len bytes e in
    (
      rw (← same) (omega (arith, length-take len (drop off bytes), length-drop off bytes)),
      λ i h. rw (← same) (get_elem?-take len i (drop off bytes) h ∙ get_elem?-drop off i bytes),
    )

pub extent_bytes_lem :
    (media : Media) (x : Extent) {b : List ℕ}
    → extent_bytes media x ≡ some b
    → (length b ≡ x.length)
      × ((i : ℕ) → i < x.length → get_elem? b i ≡ byte_at media (some (x.medium, x.offset + i)))
unfolding extent_bytes appended
extent_bytes_lem media x {b} e = elim (eq_or_ne x.length 0) [
  | inl empty ↦
      let same : [] ≡ b = ground arith in (rw (← same) (omega arith), λ i h. absurd (omega arith))
  | inr ne ↦ read_contents_lem (contents_of media x.medium) x.offset x.length (ground arith)
]

-- The head's bytes and those of the rest.
pub bytes_of-cons :
    (media : Media) (x : Extent) (xs : List Extent) {b : List ℕ}
    → bytes_of media (x ∷ xs) ≡ some b
    → (h t : List ℕ) × (extent_bytes media x ≡ some h) × (bytes_of media xs ≡ some t) × (b ≡ h ++ t)
unfolding bytes_of
bytes_of-cons media x xs e =
    let (h, eh, e1) = >>=-eq-some (extent_bytes media x) _ e in
    let (t, et, e2) = >>=-eq-some (bytes_of media xs) _ e1 in (h, t, eh, et, cc)

pub length-bytes_of :
    (media : Media) (xs : List Extent) {b : List ℕ}
    → bytes_of media xs ≡ some b
    → length b ≡ total xs
unfolding total
length-bytes_of media [] {b} e = unfold bytes_of in (let same : [] ≡ b = cc in rw (← same))
length-bytes_of media (x ∷ xs) e =
    let (h, t, eh, et, same) = bytes_of-cons media x xs e in
    rw same (
      omega
        (arith, length-append h t, (extent_bytes_lem media x eh).0, length-bytes_of media xs et))

-- Each byte of the whole is the byte of the source that stands there.
pub bytes_of-source :
    (media : Media) (xs : List Extent) (pos : ℕ) {b : List ℕ}
    → bytes_of media xs ≡ some b
    → pos < total xs
    → get_elem? b pos ≡ byte_at media (source_at xs pos)
unfolding total source_at
bytes_of-source media [] pos e h = absurd (omega arith)
bytes_of-source media (x ∷ xs) pos e below =
    let (h, t, eh, et, same) = bytes_of-cons media x xs e in
    let (len, each) = extent_bytes_lem media x eh in
    elim (le_or_lt x.length pos) [
      | inl past ↦
          let there : source_at (x ∷ xs) pos ≡ source_at xs (pos - x.length) = ground arith in
          rw (same, there, get_elem?-append_right h t pos (omega arith), len)
            (bytes_of-source media xs (pos - x.length) et (omega arith))
      | inr inside ↦
          let here : source_at (x ∷ xs) pos ≡ some (x.medium, x.offset + pos) = ground arith in
          rw (same, here, get_elem?-append_left h t pos (omega arith)) (each pos inside)
    ]
