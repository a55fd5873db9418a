-- ===== src/Hfs/Tree/Fill.antt =====
-- The loop of TreeBuilder::compactLevel keeps the nodes that are done, and the one that is being
-- filled, in their form.
use mathlib.Core.List.{append_assoc, append-nil}
use mathlib.Core.Path.{subst}
use fsview.Base.{
  ℕ, suc, ◌+◌, ◌*◌, ◌^◌, ◌≤◌, ◌<◌, ◌≡◌, refl, ap, sym, ◌∙◌, arith, true, false, some, List, [], ◌∷◌,
  ◌++◌, map, length, ◌==◌, length-append,
}
use fsview.Hfs.Forks.{concat}
use fsview.Hfs.Node.{NodeSpec, new_node, add_pieces, mark_record, count, size}
use fsview.Hfs.Node.Filled.{
  Holds, new_node-Holds, add_pieces-Holds, add_pieces-offset, add_pieces-same, length-starts,
  concat-snoc,
}
use fsview.Hfs.Tree.{
  Recordable, body, IsSized, Filling, link_next, link_past, roll, expose, add_checked,
}
use fsview.Hfs.Tree.Spread.{
  Chained, Spread, Spread-snoc, first_index, Holds-link_next, Holds-link_past, Chained-roll,
  Chained-last,
}

module _ {K V : Type 0} ⦃r : Recordable (K × V)⦄ where
  -- The state of the loop: the nodes that are done hold the groups, the next one the current entries.
  pub record Inv (node_size : ℕ) (nodes0 : List NodeSpec) (seen current : List (K × V))
      (st : Filling K) : Type 0 where
    pub groups : List (List (K × V))
    pub closed : List NodeSpec
    pub done : List (K × ℕ)
    pub nodes_are : st.nodes ≡ nodes0 ++ closed
    pub seen_is : concat groups ++ current ≡ seen
    pub spread : Spread node_size (length nodes0) groups closed done
    pub holds : Holds (map body current) st.next
    pub fits : size st.next ≤ node_size
    pub exposed : st.indices ≡ done ++ first_index current (length nodes0 + length closed)
    pub chained : Chained 0 (length nodes0) (closed ++ (st.next ∷ []))
    pub many : 2 * length done ≤ length (concat groups)

  pub roll-Inv :
      (node_size kind level : ℕ) (nodes0 : List NodeSpec) (seen : List (K × V)) (e : K × V)
      (g : List (K × V)) (st : Filling K)
      → 16 ≤ node_size
      → 1 ≤ length g
      → Inv node_size nodes0 seen (e ∷ g) st
      → Inv node_size nodes0 seen [] (roll kind level st)
  unfolding new_node
  roll-Inv node_size kind level nodes0 seen e g st room two inv =
      let at = length nodes0 + length inv.closed in
      let last = link_next (length st.nodes + 1) st.next in
      let numbered : length st.nodes ≡ at =
        ap length inv.nodes_are ∙ length-append nodes0 inv.closed in
      record {
        groups = inv.groups ++ ((e ∷ g) ∷ []);
        closed = inv.closed ++ (last ∷ []);
        done = inv.done ++ ((e.0, at) ∷ []);
        nodes_are =
            ap (λ t. t ++ (last ∷ [])) inv.nodes_are ∙ append_assoc nodes0 inv.closed (last ∷ []);
        seen_is =
            append-nil (concat (inv.groups ++ ((e ∷ g) ∷ [])))
            ∙ concat-snoc inv.groups (e ∷ g)
            ∙ inv.seen_is;
        spread =
            Spread-snoc node_size (length nodes0) inv.groups inv.closed inv.done e g last inv.spread
              (Holds-link_next (map body (e ∷ g)) (length st.nodes + 1) st.next inv.holds) inv.fits;
        holds =
            Holds-link_past [] (length st.nodes) (new_node kind level) (new_node-Holds kind level);
        fits = room;
        exposed = inv.exposed ∙ sym (append-nil (inv.done ++ ((e.0, at) ∷ [])));
        chained =
            Chained-roll 0 (length nodes0) inv.closed st.next
              (link_past (length st.nodes) (new_node kind level)) (length st.nodes) numbered
              inv.chained refl refl;
        many = omega (
          arith,
          inv.many,
          length-append inv.done ((e.0, at) ∷ []),
          ap length (concat-snoc inv.groups (e ∷ g)),
          length-append (concat inv.groups) (e ∷ g),
        );
      }

  map-snoc :
      (es : List (K × V)) (e : K × V) → map body (es ++ (e ∷ [])) ≡ map body es ++ (body e ∷ [])
  map-snoc [] e = refl
  map-snoc (x ∷ es) e = ap (λ t. body x ∷ t) (map-snoc es e)

  -- Where an entry starts a node, its key is exposed with the number of this node.
  expose-Inv :
      (node_size : ℕ) (nodes0 : List NodeSpec) (seen current : List (K × V)) (st : Filling K)
      (e : K × V)
      → node_size < 2 ^ 16
      → (inv : Inv node_size nodes0 seen current st)
      → ((expose e.0 st).next ≡ st.next)
        × ((expose e.0 st).nodes ≡ st.nodes)
        × ((expose e.0 st).indices
            ≡ inv.done ++ first_index (current ++ (e ∷ [])) (length nodes0 + length inv.closed))
  expose-Inv node_size nodes0 seen [] st e small inv =
      let starts_node : (count st.next == 0) ≡ true = ground (arith, inv.holds.count_is) in
      let numbered : length st.nodes ≡ length nodes0 + length inv.closed =
        ap length inv.nodes_are ∙ length-append nodes0 inv.closed in
      rw starts_node (
        refl,
        refl,
        ap (λ t. t ++ ((e.0, length st.nodes) ∷ [])) (inv.exposed ∙ append-nil inv.done)
            ∙ ap (λ k. inv.done ++ ((e.0, k) ∷ [])) numbered,
      )
  expose-Inv node_size nodes0 seen (x ∷ current) st e small inv =
      let few : suc (length (map body current)) < 2 ^ 16 = omega (
        arith,
        inv.fits,
        ap length inv.holds.offsets_are,
        length-starts 14 (map body (x ∷ current)) [],
      ) in
      let within_node : (count st.next == 0) ≡ false = ground (arith, inv.holds.count_is, few) in
      rw within_node (refl, refl, inv.exposed)

  pub add_checked-Inv :
      (node_size kind level : ℕ) (nodes0 : List NodeSpec) (seen current : List (K × V))
      (st : Filling K) (e : K × V)
      → node_size < 2 ^ 16
      → IsSized e
      → size st.next + r.record_size e + 2 ≤ node_size
      → Inv node_size nodes0 seen current st
      → (st' : Filling K) × (add_checked node_size kind level e (expose e.0 st) ≡ some st')
        × Inv node_size nodes0 (seen ++ (e ∷ [])) (current ++ (e ∷ [])) st'
  unfolding IsSized
  add_checked-Inv node_size kind level nodes0 seen current st e small sized fits inv =
      let (same_next, same_nodes, indices_are) =
        expose-Inv node_size nodes0 seen current st e small inv in
      let filled = add_pieces (r.as_extents e) st.next in
      let grown : filled.offset ≡ st.next.offset + r.record_size e =
        add_pieces-offset (r.as_extents e) st.next ∙ ap (λ k. st.next.offset + k) sized in
      let checked : (filled.offset == st.next.offset + r.record_size e) ≡ true = ground arith in
      let (same_offsets, same_desc) = add_pieces-same (r.as_extents e) st.next in
      (
        record (expose e.0 st) { next = mark_record filled },
        rw (same_next, checked) refl,
        record {
          groups = inv.groups;
          closed = inv.closed;
          done = inv.done;
          nodes_are = same_nodes ∙ inv.nodes_are;
          seen_is =
              sym (append_assoc (concat inv.groups) current (e ∷ []))
              ∙ ap (λ t. t ++ (e ∷ [])) inv.seen_is;
          spread = inv.spread;
          holds =
              subst (λ records. Holds records (mark_record filled)) (sym (map-snoc current e))
                (add_pieces-Holds (map body current) (r.as_extents e) st.next inv.holds);
          fits = omega (arith, grown, ap length same_offsets, fits);
          exposed = indices_are;
          chained =
              Chained-last 0 (length nodes0) inv.closed st.next (mark_record filled) inv.chained
                (ap (λ d. d.b_link) same_desc) (ap (λ d. d.f_link) same_desc);
          many = inv.many;
        },
      )
