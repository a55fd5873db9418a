-- ===== src/Hfs/Node.antt =====
-- NodeSpec of impl/hfplus.h and impl/hfplus.cpp: a node of a tree under construction. Its records are
-- extents that refer to data, so the descriptor and the header record are written as they are when
-- the node is written.
pub mod Filled
pub mod Read
use fsview.Base.{
  ℕ, ◌+◌, ◌-◌, ◌*◌, ◌%◌, ◌^◌, Bool, Option, none, some, List, [], ◌∷◌, ◌++◌, map, length,
  if◌then◌else◌, leb, ◌==◌, ◌&&◌,
}
use fsview.Base.Words.{sub64}
use fsview.Extent.Bitmap.{BitsMedium, write_to_fd}
use fsview.Hfs.Forks.{u16, u32, zeros, concat}
use fsview.Hfs.Headers.{BtHeaderRec, header_rec_bytes}

-- A byte, as SInt8 for the kind.
abbrev pub bt_leaf_node : ℕ
bt_leaf_node = 255

abbrev pub bt_index_node : ℕ
bt_index_node = 0

abbrev pub bt_header_node : ℕ
bt_header_node = 1

abbrev pub bt_map_node : ℕ
bt_map_node = 2

pub record BtNodeDescriptor : Type 0 where
  pub f_link : ℕ
  pub b_link : ℕ
  pub kind : ℕ
  pub height : ℕ
  pub num_records : ℕ

abbrev pub descriptor_bytes : BtNodeDescriptor → List ℕ
descriptor_bytes d =
    u32 d.f_link ++ u32 d.b_link ++ (d.kind % 256 ∷ d.height % 256 ∷ u16 d.num_records) ++ zeros 2

-- What an extent of a node refers to: its own descriptor, the header record of its tree, other data,
-- or a range of the map of the nodes.
pub data Piece : Type 0 where
  own_desc : Piece
  own_header : Piece
  memory : List ℕ → Piece
  node_map : ℕ → ℕ → Piece

abbrev pub piece_length : Piece → ℕ
piece_length Piece.own_desc = 14
piece_length Piece.own_header = 106
piece_length (Piece.memory bytes) = length bytes
piece_length (Piece.node_map done mset) = mset

pub record NodeSpec : Type 0 where
  pub offset : ℕ
  pub desc : BtNodeDescriptor
  pub recs : List Piece
  pub offsets : List ℕ

abbrev pub off_size : NodeSpec → ℕ
off_size node = 2 * length node.offsets

abbrev pub size : NodeSpec → ℕ
size node = node.offset + off_size node

abbrev pub count : NodeSpec → ℕ
count node = node.desc.num_records

-- size_t, so a node that is too large wraps around.
abbrev pub free_space : ℕ → Bool → NodeSpec → ℕ
free_space capacity gross node = sub64 (sub64 capacity (size node)) (if gross then 0 else 2)

abbrev pub fits_in : ℕ → ℕ → NodeSpec → Bool
fits_in capacity record_size node = leb (size node + record_size + 2) capacity

abbrev pub add_piece : Piece → NodeSpec → NodeSpec
add_piece piece node = record node {
  recs = node.recs ++ (piece ∷ []);
  offset = node.offset + piece_length piece;
}

abbrev pub add_pieces : List (List ℕ) → NodeSpec → NodeSpec
add_pieces [] node = node
add_pieces (bytes ∷ rest) node = add_pieces rest (add_piece (Piece.memory bytes) node)

abbrev pub mark_record : NodeSpec → NodeSpec
mark_record node = record node {
  offsets = node.offset % 2 ^ 16 ∷ node.offsets;
  desc = record (node.desc) { num_records = (node.desc.num_records + 1) % 2 ^ 16 };
}

-- numRecords starts as -1, and the descriptor is the record before the first one.
abbrev pub empty_node : NodeSpec
empty_node = mark_record (
    add_piece Piece.own_desc (record {
      offset = 0;
      desc = record { f_link = 0; b_link = 0; kind = 0; height = 0; num_records = 2 ^ 16 - 1 };
      recs = [];
      offsets = [];
    }))

unfoldable pub new_node : ℕ → ℕ → NodeSpec
new_node kind level = record empty_node {
  desc = record (empty_node.desc) { kind = kind; height = level % 256 };
}

-- What a piece holds when its node is written. The map of the nodes is a BitsMedium, which writes
-- with a buffer of its own.
abbrev pub piece_bytes : BtNodeDescriptor → BtHeaderRec → BitsMedium → List ℕ → Piece → List ℕ
piece_bytes desc header fill_med buffer Piece.own_desc = descriptor_bytes desc
piece_bytes desc header fill_med buffer Piece.own_header = header_rec_bytes header
piece_bytes desc header fill_med buffer (Piece.memory bytes) = bytes
piece_bytes desc header fill_med buffer (Piece.node_map done mset) =
    write_to_fd fill_med done mset buffer

-- The offsets follow each other in memory as they are in the vector.
abbrev pub table_bytes : List ℕ → List ℕ
table_bytes offsets = concat (map u16 offsets)

module _ (header : BtHeaderRec) (fill_med : BitsMedium) (buffer : List ℕ) where
  abbrev pub body_bytes : NodeSpec → List ℕ
  body_bytes node = concat (map (piece_bytes node.desc header fill_med buffer) node.recs)

  -- What an appender holds after a node was written at its end. A negative length of the zero extent
  -- does not happen: `capacity - size()` wraps around to one that no appender takes.
  unfoldable pub write_to : ℕ → NodeSpec → List ℕ → Option (List ℕ)
  write_to capacity node out =
      let written =
        out ++ (body_bytes node ++ (zeros (capacity - size node) ++ table_bytes node.offsets)) in
      if length out % 512 == 0 && leb (size node) capacity && length written % 512 == 0
      then some written
      else none
