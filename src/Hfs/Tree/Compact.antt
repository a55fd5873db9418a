-- ===== src/Hfs/Tree/Compact.antt =====
-- TreeBuilder::compactLevel of impl/hfplus.h as a whole.
use mathlib.Core.List.{append_assoc, append-nil}
use mathlib.Core.Path.{subst}
use fsview.Base.{
  ℕ, suc, ◌+◌, ◌*◌, ◌^◌, ◌≤◌, ◌<◌, ◌≡◌, refl, ap, sym, ◌∙◌, arith, true, false, some, List, [], ◌∷◌,
  ◌++◌, map, length, All, All-append, length-append, Bool-cases, inl, inr, leb→le,
}
use fsview.Hfs.Forks.{concat}
use fsview.Hfs.Node.{NodeSpec, new_node, fits_in, size}
use fsview.Hfs.Node.Filled.{new_node-Holds, length-starts, concat-snoc}
use fsview.Hfs.Tree.{Recordable, body, IsSized, Filling, roll, add_entry, each_entry, compact_level}
use fsview.Hfs.Tree.Spread.{Chained, Spread, Spread-snoc}
use fsview.Hfs.Tree.Fill.{Inv, roll-Inv, add_checked-Inv}

module _ {K V : Type 0} ⦃r : Recordable (K × V)⦄ where
  -- The size of an entry is the one of its bytes, and not above `largest`.
  unfoldable pub IsWithin : ℕ → K × V → Type 0
  IsWithin largest e = IsSized e × (r.record_size e ≤ largest)

  length-map : (es : List (K × V)) → length (map body es) ≡ length es
  length-map [] = refl
  length-map (e ∷ es) = ap suc (length-map es)

  current_size :
      (node_size : ℕ) (nodes0 : List NodeSpec) (seen current : List (K × V)) (st : Filling K)
      → Inv node_size nodes0 seen current st
      → size st.next ≡ 16 + length (concat (map body current)) + 2 * length current
  current_size node_size nodes0 seen current st inv = omega (
    arith,
    inv.holds.offset_is,
    ap length inv.holds.offsets_are,
    length-starts 14 (map body current) [],
    length-map current,
  )

  pub add_entry-Inv :
      (node_size kind level largest : ℕ) (nodes0 : List NodeSpec) (seen current : List (K × V))
      (st : Filling K) (e : K × V)
      → node_size < 2 ^ 16
      → 2 * largest + 20 ≤ node_size
      → All (IsWithin largest) current
      → IsWithin largest e
      → Inv node_size nodes0 seen current st
      → (st' : Filling K) × (current' : List (K × V)) × (add_entry node_size kind level e st
          ≡ some st')
        × All (IsWithin largest) (current' ++ (e ∷ []))
        × Inv node_size nodes0 (seen ++ (e ∷ [])) (current' ++ (e ∷ [])) st'
  unfolding add_entry IsWithin IsSized
  add_entry-Inv node_size kind level largest nodes0 seen current st e small room all (sized, le)
        inv =
      elim (Bool-cases (fits_in node_size (r.record_size e) st.next)) [
        | inl fit ↦
            let (st', run, inv') =
              add_checked-Inv node_size kind level nodes0 seen current st e small sized
                (leb→le (size st.next + r.record_size e + 2) node_size fit) inv in
            (
              st',
              current,
              rw fit run,
              All-append (IsWithin largest) current (e ∷ []) all ((sized, le), tt),
              inv',
            )
        | inr unfit ↦ in_next current all inv unfit
      ]
    where
      in_next :
          (current : List (K × V))
          → All (IsWithin largest) current
          → Inv node_size nodes0 seen current st
          → fits_in node_size (r.record_size e) st.next ≡ false
          → (st' : Filling K) × (current' : List (K × V)) × (add_entry node_size kind level e st
              ≡ some st')
            × All (IsWithin largest) (current' ++ (e ∷ []))
            × Inv node_size nodes0 (seen ++ (e ∷ [])) (current' ++ (e ∷ [])) st'
      in_next [] all inv unfit =
          let sizes = current_size node_size nodes0 seen [] st inv in
          let fit : fits_in node_size (r.record_size e) st.next ≡ true = ground (arith, sizes) in
          absurd (cc (fit, unfit))
      in_next (x ∷ []) all inv unfit =
          let sizes = current_size node_size nodes0 seen (x ∷ []) st inv in
          let long = length-append (body x) [] in
          let fit : fits_in node_size (r.record_size e) st.next ≡ true =
            ground (arith, sizes, long, all.0.0, all.0.1) in
          absurd (cc (fit, unfit))
      in_next (x ∷ y ∷ rest) all inv unfit =
          let rolled =
            roll-Inv node_size kind level nodes0 seen x (y ∷ rest) st (omega arith) (omega arith)
              inv in
          let sizes = current_size node_size nodes0 seen [] (roll kind level st) rolled in
          let (st', run, inv') =
            add_checked-Inv node_size kind level nodes0 seen [] (roll kind level st) e small sized
              (omega (arith, sizes)) rolled in
          (st', [], rw unfit run, ((sized, le), tt), inv')

  each_entry-Inv :
      (node_size kind level largest : ℕ) (nodes0 : List NodeSpec)
      → node_size < 2 ^ 16
      → 2 * largest + 20 ≤ node_size
      → (data_map seen current : List (K × V)) (st : Filling K) → All (IsWithin largest) data_map
      → All (IsWithin largest) current
      → Inv node_size nodes0 seen current st
      → (st' : Filling K) × (current' : List (K × V)) × (each_entry node_size kind level data_map st
          ≡ some st')
        × (1 ≤ length data_map + length current → 1 ≤ length current')
        × Inv node_size nodes0 (seen ++ data_map) current' st'
  unfolding each_entry
  each_entry-Inv node_size kind level largest nodes0 small room [] seen current st hd hc inv = (
    st,
    current,
    refl,
    (λ h. omega arith),
    subst (λ s. Inv node_size nodes0 s current st) (sym (append-nil seen)) inv,
  )
  each_entry-Inv node_size kind level largest nodes0 small room (e ∷ data_map) seen current st hd hc
        inv =
      let (st1, current1, run1, hc1, inv1) =
        add_entry-Inv node_size kind level largest nodes0 seen current st e small room hc hd.0
          inv in
      let (st2, current2, run2, some2, inv2) =
        each_entry-Inv node_size kind level largest nodes0 small room data_map (seen ++ (e ∷ []))
          (current1 ++ (e ∷ [])) st1 hd.1 hc1 inv1 in
      (
        st2,
        current2,
        rw run1 run2,
        (λ h. some2 (omega (arith, length-append current1 (e ∷ [])))),
        subst (λ s. Inv node_size nodes0 s current2 st2) (append_assoc seen (e ∷ []) data_map) inv2,
      )

  -- A level that was made from the entries after the nodes before it: `groups` are the entries of its
  -- nodes.
  pub record Compacted (node_size : ℕ) (nodes0 : List NodeSpec) (data_map : List (K × V))
      (nodes : List NodeSpec) (indices : List (K × ℕ)) : Type 0 where
    pub groups : List (List (K × V))
    pub level_nodes : List NodeSpec
    pub nodes_are : nodes ≡ nodes0 ++ level_nodes
    pub spelled : concat groups ≡ data_map
    pub spread : Spread node_size (length nodes0) groups level_nodes indices
    pub chained : Chained 0 (length nodes0) level_nodes
    pub few : 2 * length indices ≤ length data_map + 1
    pub any : 1 ≤ length indices

  finish :
      (node_size : ℕ) (nodes0 : List NodeSpec) (data_map current : List (K × V)) (st : Filling K)
      → 1 ≤ length current
      → Inv node_size nodes0 data_map current st
      → Compacted node_size nodes0 data_map (st.nodes ++ (st.next ∷ [])) st.indices
  finish node_size nodes0 data_map [] st h inv = absurd (omega arith)
  finish node_size nodes0 data_map (e ∷ g) st h inv = record {
    groups = inv.groups ++ ((e ∷ g) ∷ []);
    level_nodes = inv.closed ++ (st.next ∷ []);
    nodes_are =
        ap (λ t. t ++ (st.next ∷ [])) inv.nodes_are ∙ append_assoc nodes0 inv.closed (st.next ∷ []);
    spelled = concat-snoc inv.groups (e ∷ g) ∙ inv.seen_is;
    spread =
        subst
          (λ ks.
            Spread node_size (length nodes0) (inv.groups ++ ((e ∷ g) ∷ []))
              (inv.closed ++ (st.next ∷ [])) ks)
          (sym inv.exposed)
          (Spread-snoc node_size (length nodes0) inv.groups inv.closed inv.done e g st.next
            inv.spread inv.holds inv.fits);
    chained = inv.chained;
    few = omega (
      arith,
      inv.many,
      ap length inv.exposed,
      ap length inv.seen_is,
      length-append (concat inv.groups) (e ∷ g),
      length-append inv.done ((e.0, length nodes0 + length inv.closed) ∷ []),
    );
    any = omega (
      arith,
      ap length inv.exposed,
      length-append inv.done ((e.0, length nodes0 + length inv.closed) ∷ []),
    );
  }

  start-Inv :
      (node_size kind level : ℕ) (nodes0 : List NodeSpec)
      → 16 ≤ node_size
      → Inv {K = K} {V = V} node_size nodes0 [] []
          (record { nodes = nodes0; next = new_node kind level; indices = [] })
  unfolding new_node Spread Chained
  start-Inv node_size kind level nodes0 room = record {
    groups = [];
    closed = [];
    done = [];
    nodes_are = sym (append-nil nodes0);
    seen_is = refl;
    spread = tt;
    holds = new_node-Holds kind level;
    fits = room;
    exposed = refl;
    chained = (refl, refl);
    many = omega arith;
  }

  unfoldable pub MakesLevel : ℕ → ℕ → ℕ → List NodeSpec → List (K × V) → Type 0
  MakesLevel node_size kind level nodes0 data_map =
      (nodes : List NodeSpec) × (indices : List (K × ℕ)) × (compact_level node_size kind level
          nodes0 data_map
        ≡ some (nodes, indices))
      × Compacted node_size nodes0 data_map nodes indices

  -- From one entry on, where nodes are below 64K and have room for two entries of the largest size, a
  -- level is made, and not given up: its nodes hold all entries in their order, none is larger than
  -- it may be, each is linked with its neighbours, and the indices are the first keys of the nodes and
  -- the numbers of the nodes, at most half as many as the entries, rounded up.
  pub compact_level_lem :
      (node_size kind level largest : ℕ) (nodes0 : List NodeSpec) (data_map : List (K × V))
      → node_size < 2 ^ 16
      → 2 * largest + 20 ≤ node_size
      → 1 ≤ length data_map
      → All (IsWithin largest) data_map
      → MakesLevel node_size kind level nodes0 data_map
  unfolding compact_level MakesLevel
  compact_level_lem node_size kind level largest nodes0 data_map small room some_data all =
      let (st, current, run, any, inv) =
        each_entry-Inv node_size kind level largest nodes0 small room data_map [] []
          (record { nodes = nodes0; next = new_node kind level; indices = [] }) all tt
          (start-Inv node_size kind level nodes0 (omega arith)) in
      (
        st.nodes ++ (st.next ∷ []),
        st.indices,
        rw run refl,
        finish node_size nodes0 data_map current st (any (omega arith)) inv,
      )
