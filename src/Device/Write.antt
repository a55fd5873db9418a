-- ===== src/Device/Write.antt =====
-- The inner loop of Geometry::writeFiles: every byte of a chart is found on the target.
use fsview.Base.{
  ℕ, ◌+◌, ◌-◌, ◌^◌, ◌≤◌, ◌<◌, ◌≡◌, ◌∙◌, inl, inr, refl, ap, List, [], ◌∷◌, arith, some,
}
use fsview.Base.SortedMap.{insert}
use fsview.Base.Words.{sub64, sub64_small}
use fsview.Extent.{Extent}
use fsview.Burner
use fsview.Burner.{Planner}
use fsview.Burner.Image.{source_at}
use fsview.Burner.Plan.{IsPlanned, Grown, Grown-refl, Grown-trans, append_lem, append-Fits}
use fsview.Burner.Padding.{pad_to_lem}
use fsview.Device.{Territory, write_ranges}
use fsview.Device.Merge.{OrderedFrom, Covered}
use fsview.Device.Place.{
  KeysBelow, snoc, insert-snoc, KeysBelow-snoc, last_le-snoc_self, Translates, Translates-Grown,
  Translates-snoc,
}

-- At most what the ranges take on the target: their lengths, and less than a block of padding each.
unfoldable pub footprint : ℕ → Territory → ℕ
footprint blk_sz [] = 0
footprint blk_sz ((first, last) ∷ rest) = (last - first) + blk_sz + footprint blk_sz rest

-- What writing the ranges `t` of a surface from `p` on establishes, where the map `m` holds keys
-- below `b`.
pub record Wrote (k surface b : ℕ) (t : Territory) (m : List (ℕ × ℕ)) (p : Planner)
    (m' : List (ℕ × ℕ)) (q : Planner) : Type 0 where
  pub ok : write_ranges (2 ^ k) surface t m p ≡ some (m', q)
  pub valid : IsPlanned q
  pub grown : Grown p q
  pub size : q.offset ≤ p.offset + footprint (2 ^ k) t
  pub keeps : (x : ℕ) → x < b → Translates surface x m p → Translates surface x m' q
  pub brings : (x : ℕ) → Covered x t → Translates surface x m' q

-- One round.
record OneWritten (k surface first last : ℕ) (p q : Planner) : Type 0 where
  mid : Planner
  pad : ℕ
  put_ok :
      Burner.append (record { offset = first; length = sub64 last first; medium = some surface }) p
      ≡ some (p.offset, mid)
  pad_ok : Burner.pad_to (2 ^ k) mid ≡ some (pad, q)
  one_valid : IsPlanned q
  one_grown : Grown p q
  one_size : q.offset ≤ p.offset + (last - first) + 2 ^ k
  one_inside : p.offset + (last - first) ≤ q.offset
  one_source :
      (x : ℕ)
      → first ≤ x
      → x < last
      → source_at q.extlist (x - first + p.offset) ≡ some (some surface, x)

write_one :
    (k surface first last : ℕ) (p : Planner)
    → k < 63
    → IsPlanned p
    → first < last
    → p.offset + ((last - first) + 2 ^ k) ≤ 2 ^ 63
    → 1 ≤ 2 ^ k
    → (q : Planner) × OneWritten k surface first last p q
write_one k surface first last p hk v some_bytes room pos =
    let size = sub64_small last first (omega arith) (omega arith) in
    let x : Extent = record { offset = first; length = sub64 last first; medium = some surface } in
    let ok : Burner.append x p ≡ some (p.offset, _) = append-Fits x p (omega arith, omega arith) in
    let a = append_lem x v ok in
    let (q, e, padded) = pad_to_lem k hk a.valid (omega arith) in
    (
      q,
      record {
        mid = _;
        pad = _;
        put_ok = ok;
        pad_ok = e;
        one_valid = padded.valid;
        one_grown = Grown-trans a.grown padded.grown;
        one_size = omega (arith, padded.near);
        one_inside = omega (arith, padded.grown.up);
        one_source = λ y lo hi.
            let here : y - first + p.offset ≡ p.offset + (y - first) = omega arith in
            let there : first + (y - first) ≡ y = omega arith in
            rw (here, padded.grown.kept (p.offset + (y - first)) (omega arith))
              (a.laid (y - first) (omega arith) ∙ ap (λ z. some (some surface, z)) there);
      },
    )

write_cons :
    (k surface first last : ℕ) (rest : Territory) (m : List (ℕ × ℕ)) {p q : Planner}
    → OneWritten k surface first last p q
    → write_ranges (2 ^ k) surface ((first, last) ∷ rest) m p
      ≡ write_ranges (2 ^ k) surface rest (insert first p.offset m) q
unfolding write_ranges
write_cons k surface first last rest m one = rw (one.put_ok, one.pad_ok)

-- The head range is translated once its key is in.
one-Translates :
    (k surface first last x : ℕ) (m : List (ℕ × ℕ)) {p q : Planner}
    → OneWritten k surface first last p q
    → KeysBelow first m
    → first ≤ x
    → x < last
    → Translates surface x (snoc m first p.offset) q
one-Translates k surface first last x m {p} one below lo hi = record {
  from = first;
  to = p.offset;
  found = last_le-snoc_self x first p.offset m lo below;
  above = lo;
  inside = omega (arith, one.one_inside);
  source = one.one_source x lo hi;
}

KeysBelow-mono : (b c : ℕ) (m : List (ℕ × ℕ)) → b ≤ c → KeysBelow b m → KeysBelow c m
KeysBelow-mono b c [] le h = tt
KeysBelow-mono b c ((j, w) ∷ m) le (h1, h2) = (omega arith, KeysBelow-mono b c m le h2)

pub write_ranges_lem :
    (k surface b : ℕ) (t : Territory) (m : List (ℕ × ℕ)) (p : Planner)
    → k < 63
    → 1 ≤ 2 ^ k
    → OrderedFrom b t
    → KeysBelow b m
    → IsPlanned p
    → p.offset + footprint (2 ^ k) t ≤ 2 ^ 63
    → (m' : List (ℕ × ℕ)) × (q : Planner) × Wrote k surface b t m p m' q
unfolding footprint
write_ranges_lem k surface b [] m p hk pos ord below v room = (
  m,
  p,
  record {
    ok = unfold write_ranges in refl;
    valid = v;
    grown = Grown-refl p;
    size = omega arith;
    keeps = λ x lt t. t;
    brings = λ x c. absurd c;
  },
)
write_ranges_lem k surface b ((first, last) ∷ rest) m p hk pos (o1, o2, o3) below v room =
    let belowf : KeysBelow first m = KeysBelow-mono b first m o1 below in
    let (q, one) = write_one k surface first last p hk v o2 (omega arith) pos in
    let m1 : List (ℕ × ℕ) = snoc m first p.offset in
    let (m', r, w) =
      write_ranges_lem k surface last rest m1 q hk pos o3
        (KeysBelow-snoc first last first p.offset m belowf (omega arith) o2) one.one_valid
        (omega (arith, one.one_size)) in
    (
      m',
      r,
      record {
        ok =
            write_cons k surface first last rest m one
            ∙ rw (insert-snoc first p.offset m belowf) w.ok;
        valid = w.valid;
        grown = Grown-trans one.one_grown w.grown;
        size = omega (arith, one.one_size, w.size);
        keeps = λ x lt t.
            w.keeps x (omega arith)
              (Translates-snoc first p.offset (omega arith) (Translates-Grown one.one_grown t));
        brings = λ x c. elim c [
          | inl (lo, hi) ↦ w.keeps x hi (one-Translates k surface first last x m one belowf lo hi)
          | inr later ↦ w.brings x later
        ];
      },
    )
