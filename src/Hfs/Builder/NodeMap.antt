-- ===== src/Hfs/Builder/NodeMap.antt =====
-- The map of the nodes covers all of them after few turns, and a tree is built.
use fsview.Base.{
  ◌≢◌, ℕ, zero, suc, ◌+◌, ◌-◌, ◌/◌, ◌^◌, ◌≤◌, ◌<◌, ◌≡◌, refl, ap, sym, ◌∙◌, arith, false, some,
  List, [], ◌∷◌, ◌++◌, length, length-append, Bool-cases, inl, inr, if◌then◌else◌, ltb, ltb→lt,
  ◌==◌,
}
use mathlib.Core.Path.{subst}
use fsview.Extent.Bitmap.{byte_count, new_bits}
use fsview.Hfs.Node.{NodeSpec, new_node, free_space, bt_map_node}
use fsview.Hfs.Tree.{link_next, link_past}
use fsview.Hfs.Builder.{modify, node_at, map_range, map_nodes}

length-modify :
    (i : ℕ) (f : NodeSpec → NodeSpec) (nodes : List NodeSpec)
    → length (modify i f nodes) ≡ length nodes
length-modify i f [] = refl
length-modify zero f (node ∷ nodes) = refl
length-modify (suc i) f (node ∷ nodes) = ap suc (length-modify i f nodes)

node_at-snoc :
    (nodes : List NodeSpec) (node : NodeSpec) → node_at (length nodes) (nodes ++ (node ∷ [])) ≡ node
node_at-snoc [] node = refl
node_at-snoc (x ∷ nodes) node = node_at-snoc nodes node

node_at-append :
    (nodes more : List NodeSpec) → 1 ≤ length nodes → node_at 0 (nodes ++ more) ≡ node_at 0 nodes
node_at-append [] more h = absurd (omega arith)
node_at-append (node ∷ nodes) more h = refl

node_at-modify_other :
    (i j : ℕ) (f : NodeSpec → NodeSpec) (nodes : List NodeSpec)
    → i ≢ j
    → node_at i (modify j f nodes) ≡ node_at i nodes
node_at-modify_other i j f [] ne = refl
node_at-modify_other zero zero f (node ∷ nodes) ne = absurd (ne refl)
node_at-modify_other zero (suc j) f (node ∷ nodes) ne = refl
node_at-modify_other (suc i) zero f (node ∷ nodes) ne = refl
node_at-modify_other (suc i) (suc j) f (node ∷ nodes) ne =
    node_at-modify_other i j f nodes (λ e. ne (ap suc e))

node_at-append_left :
    (i : ℕ) (nodes more : List NodeSpec)
    → i < length nodes
    → node_at i (nodes ++ more) ≡ node_at i nodes
node_at-append_left i [] more h = absurd (omega arith)
node_at-append_left zero (node ∷ nodes) more h = refl
node_at-append_left (suc i) (node ∷ nodes) more h = node_at-append_left i nodes more (omega arith)

-- All nodes are kept but the one that gets a part of the map.
abbrev pub Keeps : ℕ → List NodeSpec → List NodeSpec → Type 0
Keeps map_at nodes nodes' =
    (i : ℕ) → i < length nodes → i ≢ map_at → node_at i nodes' ≡ node_at i nodes

-- Each turn maps at least sixteen nodes and adds one.
pub map_nodes_total :
    (fuel node_size map_at done : ℕ) (nodes : List NodeSpec)
    → 20 ≤ node_size
    → node_size < 2 ^ 16
    → 2 ≤ free_space node_size false (node_at map_at nodes)
    → 1 ≤ fuel
    → (length nodes + 7) / 8 < done + fuel
    → (nodes' : List NodeSpec) × (map_nodes fuel node_size map_at done nodes ≡ some nodes')
      × (length nodes ≤ length nodes')
      × Keeps map_at nodes nodes'
unfolding map_nodes new_node
map_nodes_total zero node_size map_at done nodes room small part turns enough = absurd (omega arith)
map_nodes_total (suc fuel) node_size map_at done nodes room small part turns enough =
    let mset = free_space node_size false (node_at map_at nodes) in
    let mapped = modify map_at (map_range done mset) nodes in
    let linked = modify map_at (link_next (length nodes)) mapped in
    let last = link_past (if map_at == 0 then 0 else length nodes - 1) (new_node bt_map_node 0) in
    let same : length linked ≡ length nodes =
      length-modify map_at (link_next (length nodes)) mapped
      ∙ length-modify map_at (map_range done mset) nodes in
    let grown : length (linked ++ (last ∷ [])) ≡ length nodes + 1 =
      omega (arith, same, length-append linked (last ∷ [])) in
    let at_last : node_at (length nodes) (linked ++ (last ∷ [])) ≡ last =
      ap (λ i. node_at i (linked ++ (last ∷ []))) (sym same) ∙ node_at-snoc linked last in
    elim (Bool-cases (ltb (done + mset) (byte_count (new_bits false 512 (length nodes))))) [
      | inl more ↦
          let left = ltb→lt (done + mset) ((length nodes + 7) / 8) more in
          let (nodes', run, longer, kept) =
            map_nodes_total fuel node_size (length nodes) (done + mset) (linked ++ (last ∷ [])) room
              small
              (subst (λ node. 2 ≤ free_space node_size false node) (sym at_last) (omega arith))
              (omega (arith, part)) (omega (arith, part, grown)) in
          (
            nodes',
            rw more run,
            omega (arith, grown, longer),
            λ i below ne.
                kept i (omega (arith, grown)) (omega arith)
                ∙ node_at-append_left i linked (last ∷ []) (omega (arith, same))
                ∙ node_at-modify_other i map_at (link_next (length nodes)) mapped ne
                ∙ node_at-modify_other i map_at (map_range done mset) nodes ne,
          )
      | inr done_all ↦ (
        mapped,
        rw done_all refl,
        omega (arith, length-modify map_at (map_range done mset) nodes),
        λ i below ne. node_at-modify_other i map_at (map_range done mset) nodes ne,
      )
    ]
