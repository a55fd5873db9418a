-- ===== src/Burner/Commit.antt =====
-- Planner::commit into memory: what is written is what the planned extents stand for.
use mathlib.Core.List.{append_assoc, append-nil}
use fsview.Base.{
  ℕ, ◌+◌, ◌≤◌, ◌<◌, ◌≡◌, ◌∙◌, refl, ap, Option, none, some, List, [], ◌∷◌, ◌++◌, arith, length,
  get_elem?, get_elem?-append_right, if◌then◌else◌, ◌==◌, inl, inr, eq_or_ne, All, take, drop,
  replicate, sym, ◌-◌, ◌>>=◌,
}
use fsview.Extent.{Extent, Media}
use fsview.Burner.{
  Planner, VectBurner, commit, burn_all, vect_ops, vect_append, appended, contents_of,
  read_contents,
}
use fsview.Burner.Image.{source_at}
use fsview.Burner.Plan.{IsPlanned}
use fsview.Burner.Reading.{
  extent_bytes, bytes_of, bytes_of-cons, bytes_of-source, length-bytes_of, byte_at,
}

-- A burner with some bytes more.
abbrev pub extended : VectBurner → List ℕ → VectBurner
extended b bs = record b { out_vec = b.out_vec ++ bs }

-- One round of the loop.
burn_one :
    (media : Media) (x : Extent) (b : VectBurner) {bytes : List ℕ}
    → extent_bytes media x ≡ some bytes
    → (if x.length == 0 then some b else (vect_append media x b >>= (λ r. some (r.1))))
      ≡ some (extended b bytes)
unfolding vect_append extent_bytes
burn_one media x b {bytes} e = elim (eq_or_ne x.length 0) [
  | inl empty ↦ ground (arith, append-nil b.out_vec)
  | inr ne ↦ ground arith
]

burn_all-bytes :
    (media : Media) (xs : List Extent) (b : VectBurner) {bytes : List ℕ}
    → bytes_of media xs ≡ some bytes
    → burn_all (vect_ops media) xs b ≡ some (extended b bytes)
unfolding burn_all vect_ops
burn_all-bytes media [] b {bytes} e = unfold bytes_of in ground (arith, append-nil b.out_vec)
burn_all-bytes media (x ∷ xs) b e =
    let (h, t, eh, et, same) = bytes_of-cons media x xs e in
    rw (burn_one media x b eh, same)
      (burn_all-bytes media xs (extended b h) et
        ∙ ap (λ v. some (record b { out_vec = v })) (append_assoc b.out_vec h t))

-- All bytes that an extent asks for are there.
abbrev HasRoom : Option (List ℕ) → ℕ → Type 0
HasRoom none end_of = Unit
HasRoom (some bytes) end_of = end_of ≤ length bytes

abbrev pub InBounds : Media → Extent → Type 0
InBounds media x = HasRoom (contents_of media x.medium) (x.offset + x.length)

read_contents-total :
    (c : Option (List ℕ)) (off len : ℕ)
    → HasRoom c (off + len)
    → (bytes : List ℕ) × (read_contents c off len ≡ some bytes)
read_contents-total none off len h = (replicate len 0, refl)
read_contents-total (some bytes) off len h = (take len (drop off bytes), ground arith)

extent_bytes-total :
    (media : Media) (x : Extent)
    → InBounds media x
    → (bytes : List ℕ) × (extent_bytes media x ≡ some bytes)
unfolding extent_bytes appended
extent_bytes-total media x h = elim (eq_or_ne x.length 0) [
  | inl empty ↦ ([], ground arith)
  | inr ne ↦
      let (bytes, e) = read_contents-total (contents_of media x.medium) x.offset x.length h in
      (bytes, ground arith)
]

bytes_of-total :
    (media : Media) (xs : List Extent)
    → All (InBounds media) xs
    → (bytes : List ℕ) × (bytes_of media xs ≡ some bytes)
unfolding bytes_of
bytes_of-total media [] h = ([], refl)
bytes_of-total media (x ∷ xs) (hx, hxs) =
    let (b, e) = extent_bytes-total media x hx in
    let (bs, es) = bytes_of-total media xs hxs in (b ++ bs, rw (e, es))

-- Committing a planner whose extents are within their media succeeds. It empties the planner's
-- list, keeps what the burner held, appends as many bytes as the planner's offset, and puts at each
-- distance from the old end the byte of the source that was planned there.
pub commit_lem :
    (media : Media) (p : Planner) (b : VectBurner) (pos : ℕ)
    → IsPlanned p
    → All (InBounds media) p.extlist
    → pos < p.offset
    → (bytes : List ℕ) × (commit (vect_ops media) p b
        ≡ some (record p { extlist = [] }, record b { out_vec = b.out_vec ++ bytes }))
      × (length bytes ≡ p.offset)
      × (get_elem? (b.out_vec ++ bytes) (length b.out_vec + pos)
          ≡ byte_at media (source_at p.extlist pos))
unfolding commit
commit_lem media p b pos v h below =
    let (bytes, e) = bytes_of-total media p.extlist h in
    let step : length b.out_vec + pos - length b.out_vec ≡ pos = omega arith in
    (
      bytes,
      unfold vect_ops in rw (burn_all-bytes media p.extlist b e),
      length-bytes_of media p.extlist e ∙ sym v.counted,
      rw (get_elem?-append_right b.out_vec bytes (length b.out_vec + pos) (omega arith), step)
          (bytes_of-source media p.extlist pos e (omega (arith, v.counted))),
    )
