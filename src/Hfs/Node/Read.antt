-- ===== src/Hfs/Node/Read.antt =====
-- What a reader of a written node finds: the offsets at its end lead to the records.
use mathlib.Core.List.{append_assoc}
use mathlib.Core.Path.{subst}
use fsview.Base.{
  ℕ, zero, suc, ◌+◌, ◌-◌, ◌*◌, ◌%◌, ◌^◌, ◌≤◌, ◌<◌, ◌≡◌, refl, ap, sym, ◌∙◌, arith, List, [], ◌∷◌,
  ◌++◌, map, length, take, drop, length-append, length-replicate, drop-append_left,
  take-append_left, leb, ◌==◌, true, some,
}
use fsview.Extent.Bitmap.{BitsMedium, byte_at}
use fsview.Hfs.Forks.{concat, zeros}
use fsview.Hfs.Headers.{BtHeaderRec}
use fsview.Hfs.Node.{
  NodeSpec, Piece, BtNodeDescriptor, descriptor_bytes, size, piece_bytes, body_bytes, table_bytes,
  write_to,
}
use fsview.Hfs.Node.Filled.{Holds, starts, length-starts, concat-append, concat-snoc}

-- A big-endian word of two bytes, and a record of a node, both as the format defines them.
abbrev pub u16_at : List ℕ → ℕ → ℕ
u16_at bytes at = byte_at bytes at * 256 + byte_at bytes (at + 1)

abbrev pub record_in : ℕ → List ℕ → ℕ → List ℕ
record_in capacity bytes i =
    let start = u16_at bytes (capacity - 2 * (i + 1)) in
    let end = u16_at bytes (capacity - 2 * (i + 2)) in take (end - start) (drop start bytes)

byte_at-append : (xs ys : List ℕ) (i : ℕ) → byte_at (xs ++ ys) (length xs + i) ≡ byte_at ys i
byte_at-append [] ys i = let e : 0 + i ≡ i = omega arith in ap (byte_at ys) e
byte_at-append (x ∷ xs) ys i =
    let e : suc (length xs) + i ≡ suc (length xs + i) = omega arith in rw e (byte_at-append xs ys i)

byte_at-table_bytes :
    (offsets : List ℕ) (j : ℕ)
    → j < length offsets
    → u16_at (table_bytes offsets) (2 * j) ≡ byte_at offsets j % 2 ^ 16
byte_at-table_bytes [] j h = absurd (omega arith)
byte_at-table_bytes (x ∷ offsets) zero h = omega arith
byte_at-table_bytes (x ∷ offsets) (suc j) h =
    let e0 : 2 * suc j ≡ suc (suc (2 * j)) = omega arith in
    let e1 : 2 * suc j + 1 ≡ suc (suc (2 * j + 1)) = omega arith in
    rw (e1, e0) (byte_at-table_bytes offsets j (omega arith))

length-table_bytes : (offsets : List ℕ) → length (table_bytes offsets) ≡ 2 * length offsets
length-table_bytes [] = refl
length-table_bytes (x ∷ offsets) = omega (arith, length-table_bytes offsets)

u16_at-append :
    (front offsets : List ℕ) (j at : ℕ)
    → j < length offsets
    → at ≡ length front + 2 * j
    → u16_at (front ++ table_bytes offsets) at ≡ byte_at offsets j % 2 ^ 16
u16_at-append front offsets j at h e =
    let next : at + 1 ≡ length front + (2 * j + 1) = omega arith in
    rw
      (
        next,
        e,
        byte_at-append front (table_bytes offsets) (2 * j),
        byte_at-append front (table_bytes offsets) (2 * j + 1),
      )
      (byte_at-table_bytes offsets j h)

nth_later :
    (at : ℕ) (records : List (List ℕ)) (later : List ℕ) (k : ℕ)
    → byte_at (starts at records later) (length records + k) ≡ byte_at (at % 2 ^ 16 ∷ later) k
nth_later at [] later k = let e : 0 + k ≡ k = omega arith in ap (byte_at (at % 2 ^ 16 ∷ later)) e
nth_later at (r ∷ records) later k =
    let e : suc (length records) + k ≡ length records + suc k = omega arith in
    ap (byte_at (starts at (r ∷ records) later)) e
    ∙ nth_later (at + length r) records (at % 2 ^ 16 ∷ later) (suc k)

-- Where the records of `after` start.
nth_start :
    (at : ℕ) (before after : List (List ℕ)) (later : List ℕ)
    → byte_at (starts at (before ++ after) later) (length after)
      ≡ (at + length (concat before)) % 2 ^ 16
nth_start at [] after later =
    let e : length after ≡ length after + 0 = omega arith in
    let e' : at ≡ at + 0 = omega arith in
    ap (byte_at (starts at after later)) e ∙ nth_later at after later 0 ∙ ap (λ k. k % 2 ^ 16) e'
nth_start at (r ∷ before) after later =
    let e : at + length r + length (concat before) ≡ at + length (r ++ concat before) =
      omega (arith, length-append r (concat before)) in
    nth_start (at + length r) before after (at % 2 ^ 16 ∷ later) ∙ ap (λ k. k % 2 ^ 16) e

split_off : (d b r a t : List ℕ) → (d ++ (b ++ (r ++ a))) ++ t ≡ (d ++ b) ++ (r ++ (a ++ t))
split_off d b r a t =
    append_assoc d (b ++ (r ++ a)) t
    ∙ ap (λ u. d ++ u) (append_assoc b (r ++ a) t ∙ ap (λ u. b ++ u) (append_assoc r a t))
    ∙ sym (append_assoc d b (r ++ (a ++ t)))

module _ (header : BtHeaderRec) (fill_med : BitsMedium) (buffer : List ℕ) where
  abbrev pub node_bytes : ℕ → NodeSpec → List ℕ
  node_bytes capacity node =
      body_bytes header fill_med buffer node
      ++ (zeros (capacity - size node) ++ table_bytes node.offsets)

  in_memory :
      (desc : BtNodeDescriptor) (pieces : List (List ℕ))
      → concat (map (piece_bytes desc header fill_med buffer) (map Piece.memory pieces))
        ≡ concat pieces
  in_memory desc [] = refl
  in_memory desc (bytes ∷ pieces) = ap (λ t. bytes ++ t) (in_memory desc pieces)

  body_bytes-Holds :
      (records : List (List ℕ)) (node : NodeSpec)
      → Holds records node
      → body_bytes header fill_med buffer node ≡ descriptor_bytes node.desc ++ concat records
  body_bytes-Holds records node h =
      ap (λ recs. concat (map (piece_bytes node.desc header fill_med buffer) recs)) h.recs_are
      ∙ ap (λ t. descriptor_bytes node.desc ++ t) (in_memory node.desc h.pieces ∙ h.pieces_are)

  -- A node that is not too large takes its whole capacity.
  pub length-node_bytes :
      (capacity : ℕ) (records : List (List ℕ)) (node : NodeSpec)
      → Holds records node
      → size node ≤ capacity
      → length (node_bytes capacity node) ≡ capacity
  length-node_bytes capacity records node h fits =
      let body = body_bytes header fill_med buffer node in
      let gap = zeros (capacity - size node) in
      let table = table_bytes node.offsets in
      omega (
        arith,
        length-append body (gap ++ table),
        length-append gap table,
        length-replicate {A = ℕ} (capacity - size node) 0,
        length-table_bytes node.offsets,
        ap length (body_bytes-Holds records node h),
        length-append (descriptor_bytes node.desc) (concat records),
        h.offset_is,
      )

  -- The offset of a record, where it stands at the end of the node.
  offset_at :
      (capacity : ℕ) (before after : List (List ℕ)) (node : NodeSpec)
      → Holds (before ++ after) node
      → size node ≤ capacity
      → capacity < 2 ^ 16
      → u16_at (node_bytes capacity node) (capacity - 2 * (length before + 1))
        ≡ 14 + length (concat before)
  offset_at capacity before after node h fits small =
      let body = body_bytes header fill_med buffer node in
      let gap = zeros (capacity - size node) in
      let table = table_bytes node.offsets in
      let whole = length-node_bytes capacity (before ++ after) node h fits in
      let many : length node.offsets ≡ 1 + length before + length after = omega (
        arith,
        ap length h.offsets_are,
        length-starts 14 (before ++ after) [],
        length-append before after,
      ) in
      let place : capacity - 2 * (length before + 1) ≡ length (body ++ gap) + 2 * length after =
        omega (
          arith,
          whole,
          many,
          length-append body (gap ++ table),
          length-append gap table,
          length-append body gap,
          length-table_bytes node.offsets,
        ) in
      let low : (14 + length (concat before)) < 2 ^ 16 = omega (
        arith,
        h.offset_is,
        ap length (concat-append before after),
        length-append (concat before) (concat after),
      ) in
      ap (λ t. u16_at t (capacity - 2 * (length before + 1))) (sym (append_assoc body gap table))
      ∙ u16_at-append (body ++ gap) node.offsets (length after) (capacity - 2 * (length before + 1))
          (omega (arith, many)) place
      ∙ ap (λ t. byte_at t (length after) % 2 ^ 16) h.offsets_are
      ∙ ap (λ t. t % 2 ^ 16) (nth_start 14 before after [])
      ∙ omega (arith, low)

  pub record_in-node_bytes :
      (capacity : ℕ) (before after : List (List ℕ)) (r : List ℕ) (node : NodeSpec)
      → Holds (before ++ (r ∷ after)) node
      → size node ≤ capacity
      → capacity < 2 ^ 16
      → record_in capacity (node_bytes capacity node) (length before) ≡ r
  record_in-node_bytes capacity before after r node h fits small =
      let whole = node_bytes capacity node in
      let front = descriptor_bytes node.desc ++ concat before in
      let rest = concat after ++ (zeros (capacity - size node) ++ table_bytes node.offsets) in
      let tail = zeros (capacity - size node) ++ table_bytes node.offsets in
      let h' : Holds ((before ++ (r ∷ [])) ++ after) node =
        subst (λ records. Holds records node) (sym (append_assoc before (r ∷ []) after)) h in
      let start = offset_at capacity before (r ∷ after) node h fits small in
      let next : capacity - 2 * (length before + 2)
          ≡ capacity - 2 * (length (before ++ (r ∷ [])) + 1) =
        omega (arith, length-append before (r ∷ [])) in
      let end : u16_at whole (capacity - 2 * (length before + 2))
          ≡ 14 + length (concat before) + length r =
        ap (u16_at whole) next
        ∙ offset_at capacity (before ++ (r ∷ [])) after node h' fits small
        ∙ omega (arith, ap length (concat-snoc before r), length-append (concat before) r) in
      let span : 14 + length (concat before) + length r - (14 + length (concat before)) ≡ length r =
        omega arith in
      let spelled : whole ≡ front ++ (r ++ rest) =
        ap (λ t. t ++ tail)
          (body_bytes-Holds (before ++ (r ∷ after)) node h
            ∙ ap (λ t. descriptor_bytes node.desc ++ t) (concat-append before (r ∷ after)))
        ∙ split_off (descriptor_bytes node.desc) (concat before) r (concat after) tail in
      let ahead : length front ≡ 14 + length (concat before) =
        length-append (descriptor_bytes node.desc) (concat before) in
      rw (start, end, span)
        (ap (λ t. take (length r) (drop (14 + length (concat before)) t)) spelled
          ∙ ap (take (length r))
              (drop-append_left (14 + length (concat before)) front (r ++ rest) ahead)
          ∙ take-append_left (length r) r rest refl)

-- A node that is written takes its capacity, and its record with the number i is r.
pub IsWritten : BtHeaderRec → BitsMedium → List ℕ → ℕ → NodeSpec → List ℕ → ℕ → List ℕ → Type 0
IsWritten header fill_med buffer capacity node out i r =
    (written : List ℕ) × (write_to header fill_med buffer capacity node out ≡ some (out ++ written))
    × (length written ≡ capacity)
    × (record_in capacity written i ≡ r)

-- A node that holds the records before, r and after is written after what the appender holds, where
-- this ends at a sector, the node is not larger than its capacity, and the capacity is in whole
-- sectors and below 64K. It takes its capacity then, and the offsets at its end lead to r.
pub write_to_lem :
    (header : BtHeaderRec) (fill_med : BitsMedium) (buffer out : List ℕ) (capacity : ℕ)
    (before after : List (List ℕ)) (r : List ℕ) (node : NodeSpec)
    → Holds (before ++ (r ∷ after)) node
    → size node ≤ capacity
    → capacity < 2 ^ 16
    → capacity % 512 ≡ 0
    → length out % 512 ≡ 0
    → IsWritten header fill_med buffer capacity node out (length before) r
unfolding write_to IsWritten
write_to_lem header fill_med buffer out capacity before after r node h fits small whole aligned =
    let written = node_bytes header fill_med buffer capacity node in
    let long =
      length-node_bytes header fill_med buffer capacity (before ++ (r ∷ after)) node h fits in
    let starts_whole : (length out % 512 == 0) ≡ true = ground arith in
    let fits_whole : leb (size node) capacity ≡ true = ground arith in
    let end : length (out ++ written) % 512 ≡ 0 = omega (arith, length-append out written, long) in
    let ends_whole : (length (out ++ written) % 512 == 0) ≡ true = ground (arith, end) in
    (
      written,
      rw (starts_whole, fits_whole, ends_whole) refl,
      long,
      record_in-node_bytes header fill_med buffer capacity before after r node h fits small,
    )
