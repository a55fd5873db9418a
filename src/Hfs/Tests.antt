-- ===== src/Hfs/Tests.antt =====
-- HFS+ structures and trees at concrete inputs.
use fsview.Base.{
  ◌*◌, ℕ, ◌+◌, ◌≡◌, refl, arith, true, false, some, List, [], ◌∷◌, ◌++◌, map, replicate, All,
}
use fsview.Text.{iso_parse}
use fsview.Extent.{round_up}
use fsview.Extent.Bitmap.{new_bits}
use fsview.Hfs.Forks.{no_extents, HfsPlusExtentRecord, set, no_descriptor, HasEight}
use fsview.Hfs.Entries.{HfsPlusExtentKey}
use fsview.Hfs.Headers.{
  HfsPlusVolumeHeader, new_volume_header, set_volume_block_size, new_header_rec, tune_for_overflow,
}
use fsview.Hfs.Headers.Layout.{IsWhole}
use fsview.Hfs.Node.{NodeSpec, new_node, add_pieces, mark_record}
use fsview.Hfs.Node.Filled.{Holds, new_node-Holds, add_pieces-Holds}
use fsview.Hfs.Node.Read.{IsWritten, write_to_lem}
use fsview.Hfs.Tree.{extent_key_record, extents_record, pointer_record, pair_record, IsSized}
use fsview.Hfs.Tree.Compact.{IsWithin, MakesLevel, compact_level_lem}
use fsview.Hfs.Builder.{TreeBuilder, header_node}
use fsview.Hfs.Builder.Climb.{IsIndexKey}
use fsview.Hfs.Builder.Built.{BuildsTree, compact_btree_total}
use fsview.Hfs.Catalog.{thread_of, decompo, new_key, same_named, find_record}
use fsview.Hfs.Catalog.Threads.{Enters, on_entry_lem}
use fsview.Hfs.FileForks.{new_file_forks, add_extents, add_overflow, overflow_key}
use fsview.Hfs.FileForks.Ninth.{add_extents-ninth}
use fsview.Hfs.FileForks.Descriptors.{
  described, all_blocks, blocks_in, EachApart, ApartFrom, add_extents-own,
}

abbrev overflow_at : ℕ → HfsPlusExtentKey
overflow_at blk = record { extent_key_length = 10; fork_type = 0; file_id = 20; first_block = blk }

abbrev pages : HfsPlusVolumeHeader
unfolding new_volume_header set_volume_block_size
pages = set_volume_block_size 4096 new_volume_header

pages-IsWhole : IsWhole pages
unfolding IsWhole HasEight pages
pages-IsWhole = (refl, refl, refl, refl, refl)

-- A leaf with one record of four bytes.
abbrev leaf : NodeSpec
leaf = mark_record (add_pieces ((1 ∷ 2 ∷ []) ∷ (3 ∷ 4 ∷ []) ∷ []) (new_node 255 1))

leaf-Holds : Holds ((1 ∷ 2 ∷ 3 ∷ 4 ∷ []) ∷ []) leaf
leaf-Holds =
    add_pieces-Holds [] ((1 ∷ 2 ∷ []) ∷ (3 ∷ 4 ∷ []) ∷ []) (new_node 255 1) (new_node-Holds 255 1)

write_to_lem_example :
    IsWritten new_header_rec (new_bits false 512 1) [] 512 leaf [] 0 (1 ∷ 2 ∷ 3 ∷ 4 ∷ [])
unfolding new_node
write_to_lem_example =
    write_to_lem new_header_rec (new_bits false 512 1) [] [] 512 [] [] (1 ∷ 2 ∷ 3 ∷ 4 ∷ []) leaf
      leaf-Holds (omega arith) (omega arith) (omega arith) (omega arith)

abbrev two_records : List (HfsPlusExtentKey × HfsPlusExtentRecord)
two_records = (overflow_at 8, no_extents) ∷ (overflow_at 16, no_extents) ∷ []

two_records-IsWithin : All (IsWithin 76) two_records
unfolding IsWithin IsSized
two_records-IsWithin = ((refl, omega arith), ((refl, omega arith), tt))

compact_level_lem_example : MakesLevel 512 255 1 (header_node ∷ []) two_records
compact_level_lem_example =
    compact_level_lem 512 255 1 76 (header_node ∷ []) two_records (omega arith) (omega arith)
      (omega arith) two_records-IsWithin

overflow_at-IsIndexKey : (blk : ℕ) → IsIndexKey 76 (overflow_at blk)
unfolding IsIndexKey IsWithin IsSized
overflow_at-IsIndexKey blk p = (refl, omega arith)

abbrev overflow_tree : TreeBuilder HfsPlusExtentKey
unfolding tune_for_overflow
overflow_tree = record {
  header = tune_for_overflow new_header_rec;
  node_list = header_node ∷ [];
  ndx_history = [];
}

compact_btree_total_example :
    BuildsTree (overflow_at 8, no_extents) ((overflow_at 16, no_extents) ∷ []) overflow_tree
unfolding overflow_tree
compact_btree_total_example =
    compact_btree_total 76 (overflow_at 8, no_extents) ((overflow_at 16, no_extents) ∷ [])
      overflow_tree refl (omega arith) (omega arith) (omega arith) two_records-IsWithin
      (overflow_at-IsIndexKey 8, (overflow_at-IsIndexKey 16, tt))

-- The root, with the label "A", in an empty catalog.
root_name : decompo false (65 ∷ []) [] ≡ some (65 ∷ [])
unfolding decompo iso_parse
root_name = refl

on_entry_lem_example :
    Enters false (65 ∷ []) true 1 2 [] (thread_of true 0 []) [] (65 ∷ []) (new_key 7 [])
unfolding find_record same_named
on_entry_lem_example =
    on_entry_lem false (65 ∷ []) true 1 2 [] (thread_of true 0 []) [] (65 ∷ []) (new_key 7 [])
      root_name refl refl refl refl refl

two_extents-EachApart : EachApart 4096 ((40960, 8192) ∷ (81920, 4096) ∷ [])
unfolding EachApart ApartFrom round_up
two_extents-EachApart = (omega arith, tt)

add_extents-own_example :
    ((add_extents 20 4096 ((40960, 8192) ∷ (81920, 4096) ∷ []) (new_file_forks [])).own_extents
      ≡ map (described 4096) ((40960, 8192) ∷ (81920, 4096) ∷ []) ++ replicate 6 no_descriptor)
    × ((add_extents 20 4096 ((40960, 8192) ∷ (81920, 4096) ∷ []) (new_file_forks [])).overflow ≡ [])
    × ((add_extents 20 4096 ((40960, 8192) ∷ (81920, 4096) ∷ []) (new_file_forks [])).blk
        ≡ all_blocks 4096 ((40960, 8192) ∷ (81920, 4096) ∷ []))
add_extents-own_example =
    add_extents-own 20 4096 ((40960, 8192) ∷ (81920, 4096) ∷ []) [] (omega arith)
      two_extents-EachApart

-- Seven extents of one block, not one behind the other, and two that are.
abbrev block_at : ℕ → ℕ × ℕ
block_at n = (n * 4096, 4096)

abbrev six_extents : List (ℕ × ℕ)
six_extents = block_at 12 ∷ block_at 14 ∷ block_at 16 ∷ block_at 18 ∷ block_at 20 ∷ block_at 22 ∷ []

nine-EachApart : EachApart 4096 (block_at 10 ∷ (six_extents ++ (block_at 30 ∷ [])))
unfolding EachApart ApartFrom round_up
nine-EachApart = (
  omega arith,
  (omega arith, (omega arith, (omega arith, (omega arith, (omega arith, (omega arith, tt)))))),
)

add_extents-ninth_example :
    ((add_extents 20 4096
        ((block_at 10 ∷ (six_extents ++ (block_at 30 ∷ []))) ++ (block_at 31 ∷ []))
        (new_file_forks [])).own_extents
      ≡ map (described 4096) (block_at 10 ∷ six_extents)
        ++ (set 30 (1 + blocks_in 4096 (block_at 31)) ∷ []))
    × ((add_extents 20 4096
          ((block_at 10 ∷ (six_extents ++ (block_at 30 ∷ []))) ++ (block_at 31 ∷ []))
          (new_file_forks [])).overflow
        ≡ add_overflow
            (overflow_key 20 (all_blocks 4096 (block_at 10 ∷ (six_extents ++ (block_at 30 ∷ [])))))
            [])
unfolding round_up
add_extents-ninth_example =
    add_extents-ninth 20 4096 (block_at 10) six_extents (block_at 30) (block_at 31) [] refl
      nine-EachApart refl
