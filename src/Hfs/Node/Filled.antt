-- ===== src/Hfs/Node/Filled.antt =====
-- What a node holds: the records that were added to it, and where each of them starts.
use mathlib.Core.List.{append_assoc, append-nil}
use fsview.Base.{
  ℕ, ◌+◌, ◌%◌, ◌^◌, ◌≡◌, refl, ap, sym, ◌∙◌, arith, List, [], ◌∷◌, ◌++◌, map, length, length-append,
}
use fsview.Hfs.Forks.{concat}
use fsview.Hfs.Node.{NodeSpec, Piece, add_piece, add_pieces, mark_record, new_node, count}

module _ {ℓ} {A : Type ℓ} where
  pub concat-append : (xss yss : List (List A)) → concat (xss ++ yss) ≡ concat xss ++ concat yss
  concat-append [] yss = refl
  concat-append (xs ∷ xss) yss =
      ap (λ t. xs ++ t) (concat-append xss yss) ∙ sym (append_assoc xs (concat xss) (concat yss))

  pub concat-snoc :
      (xss : List (List A)) (xs : List A) → concat (xss ++ (xs ∷ [])) ≡ concat xss ++ xs
  concat-snoc xss xs = concat-append xss (xs ∷ []) ∙ ap (λ t. concat xss ++ t) (append-nil xs)

-- The offsets of a node in the order of its vector, the last one first: where each record starts, and
-- where the last one ends.
abbrev pub starts : ℕ → List (List ℕ) → List ℕ → List ℕ
starts at [] later = at % 2 ^ 16 ∷ later
starts at (r ∷ records) later = starts (at + length r) records (at % 2 ^ 16 ∷ later)

pub starts-snoc :
    (at : ℕ) (records : List (List ℕ)) (r : List ℕ) (later : List ℕ)
    → starts at (records ++ (r ∷ [])) later
      ≡ (at + length (concat records) + length r) % 2 ^ 16 ∷ starts at records later
starts-snoc at [] r later =
    let e : at + length r ≡ at + 0 + length r = omega arith in
    ap (λ k. k % 2 ^ 16 ∷ at % 2 ^ 16 ∷ later) e
starts-snoc at (x ∷ records) r later =
    let e : at + length x + length (concat records) + length r
        ≡ at + length (x ++ concat records) + length r =
      omega (arith, length-append x (concat records)) in
    starts-snoc (at + length x) records r (at % 2 ^ 16 ∷ later)
    ∙ ap (λ k. k % 2 ^ 16 ∷ starts (at + length x) records (at % 2 ^ 16 ∷ later)) e

pub length-starts :
    (at : ℕ) (records : List (List ℕ)) (later : List ℕ)
    → length (starts at records later) ≡ 1 + length records + length later
length-starts at [] later = omega arith
length-starts at (r ∷ records) later =
    omega (arith, length-starts (at + length r) records (at % 2 ^ 16 ∷ later))

pub record Holds (records : List (List ℕ)) (node : NodeSpec) : Type 0 where
  pub pieces : List (List ℕ)
  pub recs_are : node.recs ≡ Piece.own_desc ∷ map Piece.memory pieces
  pub pieces_are : concat pieces ≡ concat records
  pub offset_is : node.offset ≡ 14 + length (concat records)
  pub offsets_are : node.offsets ≡ starts 14 records []
  pub count_is : count node ≡ length records % 2 ^ 16

pub new_node-Holds : (kind level : ℕ) → Holds [] (new_node kind level)
unfolding new_node
new_node-Holds kind level = record {
  pieces = [];
  recs_are = refl;
  pieces_are = refl;
  offset_is = refl;
  offsets_are = refl;
  count_is = refl;
}

-- Adding pieces appends them, and leaves the rest of the node alone.
pub add_pieces-recs :
    (body : List (List ℕ)) (node : NodeSpec)
    → (add_pieces body node).recs ≡ node.recs ++ map Piece.memory body
add_pieces-recs [] node = sym (append-nil node.recs)
add_pieces-recs (bytes ∷ body) node =
    add_pieces-recs body (add_piece (Piece.memory bytes) node)
    ∙ append_assoc node.recs (Piece.memory bytes ∷ []) (map Piece.memory body)

pub add_pieces-offset :
    (body : List (List ℕ)) (node : NodeSpec)
    → (add_pieces body node).offset ≡ node.offset + length (concat body)
add_pieces-offset [] node = omega arith
add_pieces-offset (bytes ∷ body) node = omega (
  arith,
  add_pieces-offset body (add_piece (Piece.memory bytes) node),
  length-append bytes (concat body),
)

pub add_pieces-same :
    (body : List (List ℕ)) (node : NodeSpec)
    → ((add_pieces body node).offsets ≡ node.offsets) × ((add_pieces body node).desc ≡ node.desc)
add_pieces-same [] node = (refl, refl)
add_pieces-same (bytes ∷ body) node = add_pieces-same body (add_piece (Piece.memory bytes) node)

map-append : (f : List ℕ → Piece) (xs ys : List (List ℕ)) → map f (xs ++ ys) ≡ map f xs ++ map f ys
map-append f [] ys = refl
map-append f (x ∷ xs) ys = ap (λ t. f x ∷ t) (map-append f xs ys)

pub add_pieces-Holds :
    (records body : List (List ℕ)) (node : NodeSpec)
    → Holds records node
    → Holds (records ++ (concat body ∷ [])) (mark_record (add_pieces body node))
add_pieces-Holds records body node h =
    let (same_offsets, same_desc) = add_pieces-same body node in
    let long = add_pieces-offset body node in
    let total : 14 + length (concat records) + length (concat body)
        ≡ (add_pieces body node).offset =
      omega (arith, long, h.offset_is) in
    record {
      pieces = h.pieces ++ body;
      recs_are =
          add_pieces-recs body node
          ∙ ap (λ t. t ++ map Piece.memory body) h.recs_are
          ∙ ap (λ t. Piece.own_desc ∷ t) (sym (map-append Piece.memory h.pieces body));
      pieces_are =
          concat-append h.pieces body
          ∙ ap (λ t. t ++ concat body) h.pieces_are
          ∙ sym (concat-snoc records (concat body));
      offset_is = omega (
        arith,
        total,
        ap length (concat-snoc records (concat body)),
        length-append (concat records) (concat body),
      );
      offsets_are =
          ap (λ t. (add_pieces body node).offset % 2 ^ 16 ∷ t) (same_offsets ∙ h.offsets_are)
          ∙ ap (λ t. t % 2 ^ 16 ∷ starts 14 records []) (sym total)
          ∙ sym (starts-snoc 14 records (concat body) []);
      count_is =
          ap (λ d. (d.num_records + 1) % 2 ^ 16) same_desc
          ∙ omega (arith, h.count_is, length-append records (concat body ∷ []));
    }
