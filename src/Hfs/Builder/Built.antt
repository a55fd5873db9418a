-- ===== src/Hfs/Builder/Built.antt =====
-- TreeBuilder::compactBTree of impl/hfplus.h as a whole.
use fsview.Base.{
  ℕ, ◌+◌, ◌-◌, ◌*◌, ◌%◌, ◌^◌, ◌≤◌, ◌<◌, ◌≡◌, refl, ap, sym, ◌∙◌, arith, true, false, some, List, [],
  ◌∷◌, ◌++◌, length, All, ◌==◌,
}
use mathlib.Core.Path.{subst}
use mathlib.Core.List.{append-nil, append_assoc}
use fsview.Hfs.Headers.{BtHeaderRec}
use fsview.Hfs.Node.{NodeSpec, new_node, free_space, bt_leaf_node}
use fsview.Hfs.Tree.{Recordable}
use fsview.Hfs.Tree.Compact.{IsWithin, Compacted, MakesLevel, compact_level_lem}
use fsview.Hfs.Builder.{TreeBuilder, header_node, node_at, finish, compact_btree}
use fsview.Hfs.Builder.Climb.{Climbs, IsIndexKey, Spread-All, climb_total}
use fsview.Hfs.Builder.NodeMap.{Keeps, map_nodes_total}

-- The header node is the first one of a level, and stays it.
Starts : List NodeSpec → Type 0
Starts nodes = (rest : List NodeSpec) × (nodes ≡ header_node ∷ rest)

module _ {K V : Type 0} ⦃r : Recordable (K × V)⦄ where
  Compacted-Starts :
      (node_size : ℕ) (nodes0 : List NodeSpec) (data_map : List (K × V)) (nodes : List NodeSpec)
      (indices : List (K × ℕ))
      → Compacted node_size nodes0 data_map nodes indices
      → Starts nodes0
      → Starts nodes
  unfolding Starts
  Compacted-Starts node_size nodes0 data_map nodes indices made (rest, e) =
      (rest ++ made.level_nodes, made.nodes_are ∙ ap (λ t. t ++ made.level_nodes) e)

module _ {K : Type 0} ⦃i : Recordable (K × ℕ)⦄ where
  Climbs-Starts :
      (node_size : ℕ) {level level' : ℕ} {nodes nodes' : List NodeSpec} {indices : List (K × ℕ)}
      → Climbs node_size level nodes indices level' nodes'
      → Starts nodes
      → Starts nodes'
  Climbs-Starts node_size Climbs.top h = h
  Climbs-Starts node_size
        (Climbs.up {nodes} {nodes1} {indices = indices} {indices1 = indices1} two made climbs) h =
      Climbs-Starts node_size climbs
        (Compacted-Starts node_size nodes indices nodes1 indices1 made h)

  Climbs-Grow :
      (node_size : ℕ) {level level' : ℕ} {nodes nodes' : List NodeSpec} {indices : List (K × ℕ)}
      → Climbs node_size level nodes indices level' nodes'
      → (upper : List NodeSpec) × (nodes' ≡ nodes ++ upper)
  Climbs-Grow node_size {nodes = nodes} Climbs.top = ([], sym (append-nil nodes))
  Climbs-Grow node_size
        (Climbs.up {nodes} {nodes1} {indices = indices} {indices1 = indices1} two made climbs) =
      let (upper, e) = Climbs-Grow node_size climbs in
      (
        made.level_nodes ++ upper,
        e ∙ ap (λ t. t ++ upper) made.nodes_are ∙ append_assoc nodes made.level_nodes upper,
      )

  finish_total :
      (header : BtHeaderRec) (nodes : List NodeSpec) (history : List (List (K × ℕ)))
      → 258 ≤ header.node_size
      → header.node_size < 2 ^ 16
      → Starts nodes
      → (tree : TreeBuilder K) × (finish header nodes history ≡ some tree)
        × (tree.header ≡ record header { total_nodes = length tree.node_list % 2 ^ 32 })
        × (length nodes ≤ length tree.node_list)
        × Keeps 0 nodes tree.node_list
  unfolding Starts new_node
  finish_total header nodes history room small (rest, e) =
      let first : node_at 0 nodes ≡ header_node = ap (node_at 0) e in
      let checked : (free_space 256 false (node_at 0 nodes) == 0) ≡ true =
        ap (λ node. free_space 256 false node == 0) first in
      let (mapped, run, longer, kept) =
        map_nodes_total (length nodes + 1) header.node_size 0 0 nodes (omega arith) small
          (subst (λ node. 2 ≤ free_space header.node_size false node) (sym first) (omega arith))
          (omega arith) (omega arith) in
      (
        record {
          header = record header { total_nodes = length mapped % 2 ^ 32 };
          node_list = mapped;
          ndx_history = history;
        },
        rw (checked, run) refl,
        refl,
        longer,
        kept,
      )

module _ {K V : Type 0} ⦃r : Recordable (K × V)⦄ ⦃i : Recordable (K × ℕ)⦄ where
  pub BuildsTree : K × V → List (K × V) → TreeBuilder K → Type 0
  BuildsTree entry data_map tree =
      (tree' : TreeBuilder K) × (leaves : List NodeSpec) × (indices : List (K × ℕ)) × (top : List
        NodeSpec)
      × (upper : List NodeSpec) × (level : ℕ) × (compact_btree (entry ∷ data_map) tree ≡ some tree')
      × Compacted tree.header.node_size tree.node_list (entry ∷ data_map) leaves indices
      × Climbs tree.header.node_size 1 leaves indices level top
      × (tree'.header.first_leaf_node ≡ 1)
      × (tree'.header.last_leaf_node ≡ (length leaves - 1) % 2 ^ 32)
      × (tree'.header.leaf_records ≡ length (entry ∷ data_map) % 2 ^ 32)
      × (tree'.header.root_node ≡ (length top - 1) % 2 ^ 32)
      × (tree'.header.tree_depth ≡ level % 2 ^ 16)
      × (top ≡ leaves ++ upper)
      × (length top ≤ length tree'.node_list)
      × ((i : ℕ) → 1 ≤ i → i < length top → node_at i tree'.node_list ≡ node_at i top)

  -- From one entry on, the tree is built and the program does not stop, where the nodes are below 64K
  -- and have room for two records of the largest size, be it entries or indices with the same keys:
  -- the leaves hold the entries, level after level follows them and holds the indices of the one below it
  -- until one node is left, all these nodes but the header node are those of the tree at the same
  -- numbers, and the header names the first and the last leaf, the number of the entries, this
  -- node as the root, and the number of levels as the depth.
  pub compact_btree_total :
      (largest : ℕ) (entry : K × V) (data_map : List (K × V)) (tree : TreeBuilder K)
      → tree.node_list ≡ header_node ∷ []
      → 258 ≤ tree.header.node_size
      → tree.header.node_size < 2 ^ 16
      → 2 * largest + 20 ≤ tree.header.node_size
      → All (IsWithin largest) (entry ∷ data_map)
      → All (λ e. IsIndexKey largest e.0) (entry ∷ data_map)
      → BuildsTree entry data_map tree
  unfolding compact_btree Starts BuildsTree MakesLevel
  compact_btree_total largest entry data_map tree first room small two all keys =
      let node_size = tree.header.node_size in
      let (leaves, indices, run, made) =
        compact_level_lem node_size bt_leaf_node 1 largest tree.node_list (entry ∷ data_map) small
          two (omega arith) all in
      let index_keys =
        Spread-All (IsIndexKey largest) node_size (length tree.node_list) made.groups
          made.level_nodes indices made.spread
          (subst (All (λ e. IsIndexKey largest e.0)) (sym made.spelled) keys) in
      let (level, top, history, run', climbs) =
        climb_total node_size largest small two (length indices) 1 leaves indices tree.ndx_history
          (omega arith) made.any index_keys in
      let starts = Climbs-Starts node_size climbs (
        Compacted-Starts node_size tree.node_list (entry ∷ data_map) leaves indices made
          ([], first)) in
      let (upper, grown) = Climbs-Grow node_size climbs in
      let (tree', run'', header_is, longer, kept) =
        finish_total
          (record (tree.header) {
            first_leaf_node = length tree.node_list % 2 ^ 32;
            last_leaf_node = (length leaves - 1) % 2 ^ 32;
            leaf_records = length (entry ∷ data_map) % 2 ^ 32;
            root_node = (length top - 1) % 2 ^ 32;
            tree_depth = level % 2 ^ 16;
          })
          top history room small starts in
      let headed = record (tree.header) {
        first_leaf_node = length tree.node_list % 2 ^ 32;
        last_leaf_node = (length leaves - 1) % 2 ^ 32;
        leaf_records = length (entry ∷ data_map) % 2 ^ 32;
        root_node = (length top - 1) % 2 ^ 32;
        tree_depth = level % 2 ^ 16;
        total_nodes = length tree'.node_list % 2 ^ 32;
      } in
      (
        tree',
        leaves,
        indices,
        top,
        upper,
        level,
        rw (run, run') run'',
        made,
        climbs,
        ap (λ h. h.first_leaf_node) {y = headed} header_is
            ∙ ap (λ nodes. length nodes % 2 ^ 32) first,
        ap (λ h. h.last_leaf_node) {y = headed} header_is,
        ap (λ h. h.leaf_records) {y = headed} header_is,
        ap (λ h. h.root_node) {y = headed} header_is,
        ap (λ h. h.tree_depth) {y = headed} header_is,
        grown,
        longer,
        λ i one below. kept i below (omega arith),
      )
