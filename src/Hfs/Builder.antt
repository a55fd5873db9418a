-- ===== src/Hfs/Builder.antt =====
-- TreeBuilder of impl/hfplus.h as a whole: the header node, the levels up to the root, and the map of
-- the nodes.
pub mod Climb
pub mod NodeMap
pub mod Built
use fsview.Base.{
  ℕ, zero, suc, ◌+◌, ◌-◌, ◌%◌, ◌^◌, Bool, true, false, Option, none, some, List, [], ◌∷◌, ◌++◌,
  length, if◌then◌else◌, ltb, ◌==◌, ◌>>=◌,
}
use fsview.Extent.Bitmap.{BitsMedium, new_bits, byte_count}
use fsview.Hfs.Forks.{zeros}
use fsview.Hfs.Headers.{BtHeaderRec, new_header_rec}
use fsview.Hfs.Node.{
  NodeSpec, Piece, new_node, add_piece, mark_record, free_space, write_to, bt_leaf_node,
  bt_index_node, bt_header_node, bt_map_node,
}
use fsview.Hfs.Tree.{Recordable, link_next, link_past, compact_level}

pub record TreeBuilder {ℓ} (K : Type ℓ) : Type ℓ where
  pub header : BtHeaderRec
  pub node_list : List NodeSpec
  pub ndx_history : List (List (K × ℕ))

abbrev pub header_node : NodeSpec
unfolding new_node
header_node = mark_record (
    add_piece (Piece.memory (zeros 128))
      (mark_record (add_piece Piece.own_header (new_node bt_header_node 0))))

abbrev pub new_tree_builder {ℓ} : {K : Type ℓ} → TreeBuilder K
new_tree_builder = record {
  header = new_header_rec;
  node_list = header_node ∷ [];
  ndx_history = [];
}

module _ {ℓ} {K : Type ℓ} ⦃i : Recordable (K × ℕ)⦄ (node_size : ℕ) where
  -- The loop over the levels of indices: the level and the nodes at its end.
  unfoldable pub climb :
      ℕ
      → ℕ
      → List NodeSpec
      → List (K × ℕ)
      → List (List (K × ℕ))
      → Option (ℕ × List NodeSpec × List (List (K × ℕ)))
  climb fuel level nodes [] history = some (level, nodes, history)
  climb fuel level nodes (index ∷ []) history = some (level, nodes, history)
  climb zero level nodes (index ∷ index' ∷ indices) history = none
  climb (suc fuel) level nodes (index ∷ index' ∷ indices) history =
      compact_level node_size bt_index_node (level + 1) nodes (index ∷ index' ∷ indices)
      >>= (λ made.
          climb fuel (level + 1) made.0 made.1 (history ++ ((index ∷ index' ∷ indices) ∷ [])))

abbrev pub modify : ℕ → (NodeSpec → NodeSpec) → List NodeSpec → List NodeSpec
modify i f [] = []
modify zero f (node ∷ nodes) = f node ∷ nodes
modify (suc i) f (node ∷ nodes) = node ∷ modify i f nodes

abbrev pub node_at : ℕ → List NodeSpec → NodeSpec
node_at i [] = header_node
node_at zero (node ∷ nodes) = node
node_at (suc i) (node ∷ nodes) = node_at i nodes

abbrev pub map_range : ℕ → ℕ → NodeSpec → NodeSpec
map_range done mset node = mark_record (add_piece (Piece.node_map done mset) node)

-- The loop over the map nodes. `map_at` is the number of the node that gets the next part of the map:
-- the header node, and then the last node.
unfoldable pub map_nodes : ℕ → ℕ → ℕ → ℕ → List NodeSpec → Option (List NodeSpec)
map_nodes zero node_size map_at done nodes = none
map_nodes (suc fuel) node_size map_at done nodes =
    let mset = free_space node_size false (node_at map_at nodes) in
    let mapped = modify map_at (map_range done mset) nodes in
    let past = if map_at == 0 then 0 else length nodes - 1 in
    let linked = modify map_at (link_next (length nodes)) mapped in
    let more =
      map_nodes fuel node_size (length nodes) (done + mset)
        (linked ++ (link_past past (new_node bt_map_node 0) ∷ [])) in
    if ltb (done + mset) (byte_count (new_bits false 512 (length nodes))) then more else some mapped

-- What follows the levels: the header node is as large as it has to be, or the program stops.
abbrev pub finish {ℓ} :
    {K : Type ℓ} → BtHeaderRec → List NodeSpec → List (List (K × ℕ)) → Option (TreeBuilder K)
finish header nodes history =
    if free_space 256 false (node_at 0 nodes) == 0
    then map_nodes (length nodes + 1) header.node_size 0 0 nodes >>= (λ mapped. some (record {
      header = record header { total_nodes = length mapped % 2 ^ 32 };
      node_list = mapped;
      ndx_history = history;
    }))
    else none

module _ {ℓ κ} {K : Type ℓ} {V : Type κ} ⦃r : Recordable (K × V)⦄ ⦃i : Recordable (K × ℕ)⦄ where
  unfoldable pub compact_btree : List (K × V) → TreeBuilder K → Option (TreeBuilder K)
  unfolding climb map_nodes
  compact_btree [] tree =
      finish
        (record (tree.header) {
          root_node = 0;
          tree_depth = 0;
          first_leaf_node = 0;
          last_leaf_node = 0;
          leaf_records = 0;
        })
        tree.node_list tree.ndx_history
  compact_btree (entry ∷ data_map) tree =
      compact_level tree.header.node_size bt_leaf_node 1 tree.node_list (entry ∷ data_map)
      >>= (λ leaves.
          climb tree.header.node_size (length leaves.1) 1 leaves.0 leaves.1 tree.ndx_history
          >>= (λ top.
              finish
                (record (tree.header) {
                  first_leaf_node = length tree.node_list % 2 ^ 32;
                  last_leaf_node = (length leaves.0 - 1) % 2 ^ 32;
                  leaf_records = length (entry ∷ data_map) % 2 ^ 32;
                  root_node = (length top.1 - 1) % 2 ^ 32;
                  tree_depth = top.0 % 2 ^ 16;
                })
                top.1 top.2))

-- The nodes one after the other, through an appender.
unfoldable pub write_nodes :
    BtHeaderRec → BitsMedium → List ℕ → List NodeSpec → List ℕ → Option (List ℕ)
write_nodes header fill_med buffer [] out = some out
write_nodes header fill_med buffer (node ∷ nodes) out =
    write_to header fill_med buffer header.node_size node out
    >>= write_nodes header fill_med buffer nodes
