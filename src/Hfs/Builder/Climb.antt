-- ===== src/Hfs/Builder/Climb.antt =====
-- The levels of a tree end with one node, the root.
use fsview.Base.{
  ℕ, zero, suc, ◌+◌, ◌*◌, ◌^◌, ◌≤◌, ◌<◌, ◌≡◌, refl, sym, arith, some, List, [], ◌∷◌, ◌++◌, length,
  All,
}
use mathlib.Core.Path.{subst}
use fsview.Hfs.Forks.{concat}
use fsview.Hfs.Node.{NodeSpec, bt_index_node}
use fsview.Hfs.Tree.{Recordable}
use fsview.Hfs.Tree.Spread.{Spread}
use fsview.Hfs.Tree.Compact.{IsWithin, Compacted, MakesLevel, compact_level_lem}
use fsview.Hfs.Builder.{climb}

module _ {ℓ} {A : Type ℓ} where
  pub All-left {κ} : (P : A → Type κ) (xs ys : List A) → All P (xs ++ ys) → All P xs
  All-left P [] ys h = tt
  All-left P (x ∷ xs) ys h = (h.0, All-left P xs ys h.1)

  pub All-right {κ} : (P : A → Type κ) (xs ys : List A) → All P (xs ++ ys) → All P ys
  All-right P [] ys h = h
  All-right P (x ∷ xs) ys h = All-right P xs ys h.1

module _ {K V : Type 0} ⦃r : Recordable (K × V)⦄ where
  -- What holds of the keys of the entries holds of the indices.
  pub Spread-All :
      (P : K → Type 0) (node_size at : ℕ) (gs : List (List (K × V))) (ns : List NodeSpec)
      (ks : List (K × ℕ))
      → Spread node_size at gs ns ks
      → All (λ e. P e.0) (concat gs)
      → All (λ index. P index.0) ks
  unfolding Spread
  Spread-All P node_size at [] [] [] s h = tt
  Spread-All P node_size at ((e ∷ g) ∷ gs) (n ∷ ns) ((k, p) ∷ ks) (hk, hp, hh, hf, s) h = (
    subst P (sym hk) h.0,
    Spread-All P node_size (at + 1) gs ns ks s (All-right (λ e. P e.0) g (concat gs) h.1),
  )
  Spread-All P node_size at [] [] (k ∷ ks) s h = absurd s
  Spread-All P node_size at [] (n ∷ ns) ks s h = absurd s
  Spread-All P node_size at ([] ∷ gs) ns ks s h = absurd s
  Spread-All P node_size at ((e ∷ g) ∷ gs) [] ks s h = absurd s
  Spread-All P node_size at ((e ∷ g) ∷ gs) (n ∷ ns) [] s h = absurd s

module _ {K : Type 0} ⦃i : Recordable (K × ℕ)⦄ where
  -- From the indices of a level, one level after the other holds the indices below it, until there is
  -- one node.
  pub data Climbs (node_size : ℕ)
      : ℕ → List NodeSpec → List (K × ℕ) → ℕ → List NodeSpec → Type 0 where
    top :
        {level : ℕ} {nodes : List NodeSpec} {index : K × ℕ}
        → Climbs node_size level nodes (index ∷ []) level nodes
    up :
        {level : ℕ} {nodes nodes1 nodes' : List NodeSpec} {indices indices1 : List (K × ℕ)}
        {level' : ℕ}
        → 2 ≤ length indices
        → Compacted node_size nodes indices nodes1 indices1
        → Climbs node_size (level + 1) nodes1 indices1 level' nodes'
        → Climbs node_size level nodes indices level' nodes'

  -- An index record with this key has its size, and is not above the largest.
  unfoldable pub IsIndexKey : ℕ → K → Type 0
  IsIndexKey largest k = (p : ℕ) → IsWithin largest (k, p)

  index_records :
      (largest : ℕ) (indices : List (K × ℕ))
      → All (λ index. IsIndexKey largest index.0) indices
      → All (IsWithin largest) indices
  unfolding IsIndexKey
  index_records largest [] h = tt
  index_records largest (index ∷ indices) h = (h.0 index.1, index_records largest indices h.1)

  pub climb_total :
      (node_size largest : ℕ)
      → node_size < 2 ^ 16
      → 2 * largest + 20 ≤ node_size
      → (fuel level : ℕ) (nodes : List NodeSpec) (indices : List (K × ℕ))
        (history : List (List (K × ℕ)))
      → length indices ≤ fuel
      → 1 ≤ length indices
      → All (λ index. IsIndexKey largest index.0) indices
      → (level' : ℕ) × (nodes' : List NodeSpec) × (history' : List (List (K × ℕ))) × (climb
            node_size fuel level nodes indices history
          ≡ some (level', nodes', history'))
        × Climbs node_size level nodes indices level' nodes'
  unfolding climb MakesLevel
  climb_total node_size largest small room fuel level nodes [] history enough any all =
      absurd (omega arith)
  climb_total node_size largest small room fuel level nodes (index ∷ []) history enough any all =
      (level, nodes, history, refl, Climbs.top)
  climb_total node_size largest small room zero level nodes (x ∷ y ∷ indices) history enough any
        all =
      absurd (omega arith)
  climb_total node_size largest small room (suc fuel) level nodes (x ∷ y ∷ indices) history enough
        any all =
      let (nodes1, indices1, run, made) =
        compact_level_lem node_size bt_index_node (level + 1) largest nodes (x ∷ y ∷ indices) small
          room (omega arith) (index_records largest (x ∷ y ∷ indices) all) in
      let keys =
        Spread-All (IsIndexKey largest) node_size (length nodes) made.groups made.level_nodes
          indices1 made.spread
          (subst (All (λ index. IsIndexKey largest index.0)) (sym made.spelled) all) in
      let (level', nodes', history', run', climbs) =
        climb_total node_size largest small room fuel (level + 1) nodes1 indices1
          (history ++ ((x ∷ y ∷ indices) ∷ [])) (omega (arith, made.few)) made.any keys in
      (level', nodes', history', rw run run', Climbs.up (omega arith) made climbs)
