-- ===== src/Hfs/Tree.antt =====
-- TreeBuilder of impl/hfplus.h: the nodes of a tree from its ordered records, level by level.
pub mod Spread
pub mod Fill
pub mod Compact
use fsview.Base.{
  ℕ, zero, suc, ◌+◌, ◌-◌, ◌*◌, ◌/◌, ◌%◌, ◌^◌, Bool, true, false, Option, none, some, List, [], ◌∷◌,
  ◌++◌, map, length, if◌then◌else◌, leb, ltb, ◌==◌, ◌>>=◌, ◌≡◌,
}
use fsview.Extent.Bitmap.{BitsMedium, new_bits, reserve_bits, byte_count}
use fsview.Hfs.Forks.{u32, concat, HfsPlusExtentRecord, extent_record_bytes}
use fsview.Hfs.Entries.{HfsPlusCatalogKey, catalog_key_bytes, HfsPlusExtentKey, extent_key_bytes}
use fsview.Hfs.Headers.{BtHeaderRec}
use fsview.Hfs.Node.{
  NodeSpec, Piece, new_node, add_piece, add_pieces, mark_record, count, fits_in, free_space,
  write_to, bt_leaf_node, bt_index_node, bt_header_node, bt_map_node,
}

-- RecordSize and asExtentList of what a node can hold.
pub record Recordable {ℓ} (A : Type ℓ) : Type ℓ where
  pub record_size : A → ℕ
  pub as_extents : A → List (List ℕ)

abbrev pub body {ℓ} : {A : Type ℓ} ⦃r : Recordable A⦄ → A → List ℕ
body ⦃r⦄ a = concat (r.as_extents a)

-- What the sizes promise.
unfoldable pub IsSized {ℓ} : {A : Type ℓ} ⦃r : Recordable A⦄ → A → Type 0
IsSized ⦃r⦄ a = length (body a) ≡ r.record_size a

instance abbrev pub extent_key_record : Recordable HfsPlusExtentKey
extent_key_record = record {
  record_size = λ key. 12;
  as_extents = λ key. extent_key_bytes key ∷ [];
}

instance abbrev pub extents_record : Recordable HfsPlusExtentRecord
extents_record = record {
  record_size = λ extents. 64;
  as_extents = λ extents. extent_record_bytes extents ∷ [];
}

instance abbrev pub pointer_record : Recordable ℕ
pointer_record = record { record_size = λ pointer. 4; as_extents = λ pointer. u32 pointer ∷ [] }

instance abbrev pub pair_record {ℓ κ} :
    {K : Type ℓ} {V : Type κ} ⦃k : Recordable K⦄ ⦃v : Recordable V⦄ → Recordable (K × V)
pair_record ⦃k⦄ ⦃v⦄ = record {
  record_size = λ entry. k.record_size entry.0 + v.record_size entry.1;
  as_extents = λ entry. k.as_extents entry.0 ++ v.as_extents entry.1;
}

-- The nodes that are done, the node that is being filled, and the first key of each with its index.
pub record Filling {ℓ} (K : Type ℓ) : Type ℓ where
  pub nodes : List NodeSpec
  pub next : NodeSpec
  pub indices : List (K × ℕ)

abbrev pub link_next : ℕ → NodeSpec → NodeSpec
link_next next node = record node { desc = record (node.desc) { f_link = next % 2 ^ 32 } }

abbrev pub link_past : ℕ → NodeSpec → NodeSpec
link_past past node = record node { desc = record (node.desc) { b_link = past % 2 ^ 32 } }

module _ {ℓ} {K : Type ℓ} (kind level : ℕ) where
  abbrev pub roll : Filling K → Filling K
  roll st = record st {
    nodes = st.nodes ++ (link_next (length st.nodes + 1) st.next ∷ []);
    next = link_past (length st.nodes) (new_node kind level);
  }

module _ {ℓ} {K : Type ℓ} where
  -- The keys come in their order, so that a new one is the last of the map.
  abbrev pub expose : K → Filling K → Filling K
  expose key st =
      if count st.next == 0
      then record st { indices = st.indices ++ ((key, length st.nodes) ∷ []) }
      else st

module _ {ℓ κ} {K : Type ℓ} {V : Type κ} ⦃r : Recordable (K × V)⦄ (node_size kind level : ℕ) where
  abbrev pub add_checked : K × V → Filling K → Option (Filling K)
  add_checked entry st =
      let filled = add_pieces (r.as_extents entry) st.next in
      if filled.offset == st.next.offset + r.record_size entry
      then some (record st { next = mark_record filled })
      else none

  abbrev pub make_room : K × V → Filling K → Filling K
  make_room entry st =
      if fits_in node_size (r.record_size entry) st.next then st else roll kind level st

  unfoldable pub add_entry : K × V → Filling K → Option (Filling K)
  add_entry entry st = add_checked entry (expose entry.0 (make_room entry st))

  unfoldable pub each_entry : List (K × V) → Filling K → Option (Filling K)
  unfolding add_entry
  each_entry [] st = some st
  each_entry (entry ∷ data_map) st = add_entry entry st >>= each_entry data_map

  unfoldable pub compact_level :
      List NodeSpec → List (K × V) → Option (List NodeSpec × List (K × ℕ))
  unfolding each_entry
  compact_level nodes data_map =
      each_entry data_map (record { nodes = nodes; next = new_node kind level; indices = [] })
      >>= (λ st. some (st.nodes ++ (st.next ∷ []), st.indices))
