-- ===== src/Hfs/Tree/Spread.antt =====
-- A level of a tree: its nodes hold the entries in order, each node is linked with its neighbours, and
-- the indices are the first keys of the nodes and their numbers.
use mathlib.Core.Path.{subst}
use fsview.Base.{
  ℕ, suc, ◌+◌, ◌%◌, ◌^◌, ◌≤◌, ◌≡◌, refl, ◌∙◌, arith, List, [], ◌∷◌, ◌++◌, map, length,
}
use fsview.Hfs.Node.{NodeSpec, size}
use fsview.Hfs.Node.Filled.{Holds}
use fsview.Hfs.Tree.{Recordable, body, link_next, link_past}

-- Each node but the first and the last is linked with the one before and the one after it. `past` is
-- the link of the first one, and `at` its number.
unfoldable pub Chained : ℕ → ℕ → List NodeSpec → Type 0
Chained past at [] = Unit
Chained past at (n ∷ []) = (n.desc.b_link ≡ past) × (n.desc.f_link ≡ 0)
Chained past at (n ∷ m ∷ ns) =
    (n.desc.b_link ≡ past)
    × (n.desc.f_link ≡ (at + 1) % 2 ^ 32)
    × Chained (at % 2 ^ 32) (at + 1) (m ∷ ns)

module _ {K V : Type 0} ⦃r : Recordable (K × V)⦄ where
  -- A node for each group of entries, and an index for each node. `at` is the number of the first.
  unfoldable pub Spread : ℕ → ℕ → List (List (K × V)) → List NodeSpec → List (K × ℕ) → Type 0
  Spread node_size at [] [] [] = Unit
  Spread node_size at ((e ∷ g) ∷ gs) (n ∷ ns) ((k, p) ∷ ks) =
      (k ≡ e.0)
      × (p ≡ at)
      × Holds (map body (e ∷ g)) n
      × (size n ≤ node_size)
      × Spread node_size (at + 1) gs ns ks
  Spread node_size at _ _ _ = ⊥

  abbrev pub first_index : List (K × V) → ℕ → List (K × ℕ)
  first_index [] at = []
  first_index (e ∷ g) at = (e.0, at) ∷ []

  pub Spread-snoc :
      (node_size at : ℕ) (gs : List (List (K × V))) (ns : List NodeSpec) (ks : List (K × ℕ))
      (e : K × V) (g : List (K × V)) (n : NodeSpec)
      → Spread node_size at gs ns ks
      → Holds (map body (e ∷ g)) n
      → size n ≤ node_size
      → Spread node_size at
          (gs ++ ((e ∷ g) ∷ []))
          (ns ++ (n ∷ []))
          (ks ++ ((e.0, at + length ns) ∷ []))
  unfolding Spread
  Spread-snoc node_size at [] [] [] e g n s h f = (refl, omega arith, h, f, tt)
  Spread-snoc node_size at ((e' ∷ g') ∷ gs) (n' ∷ ns) ((k, p) ∷ ks) e g n (hk, hp, hh, hf, s) h f =
      let next : at + 1 + length ns ≡ at + suc (length ns) = omega arith in
      (
        hk,
        hp,
        hh,
        hf,
        subst
            (λ i.
              Spread node_size (at + 1) (gs ++ ((e ∷ g) ∷ [])) (ns ++ (n ∷ []))
                (ks ++ ((e.0, i) ∷ [])))
            next (Spread-snoc node_size (at + 1) gs ns ks e g n s h f),
      )
  Spread-snoc node_size at [] [] (k ∷ ks) e g n s h f = absurd s
  Spread-snoc node_size at [] (n' ∷ ns) ks e g n s h f = absurd s
  Spread-snoc node_size at ([] ∷ gs) ns ks e g n s h f = absurd s
  Spread-snoc node_size at ((e' ∷ g') ∷ gs) [] ks e g n s h f = absurd s
  Spread-snoc node_size at ((e' ∷ g') ∷ gs) (n' ∷ ns) [] e g n s h f = absurd s

pub Holds-link_next :
    (records : List (List ℕ)) (k : ℕ) (n : NodeSpec)
    → Holds records n
    → Holds records (link_next k n)
Holds-link_next records k n h = record {
  pieces = h.pieces;
  recs_are = h.recs_are;
  pieces_are = h.pieces_are;
  offset_is = h.offset_is;
  offsets_are = h.offsets_are;
  count_is = h.count_is;
}

pub Holds-link_past :
    (records : List (List ℕ)) (k : ℕ) (n : NodeSpec)
    → Holds records n
    → Holds records (link_past k n)
Holds-link_past records k n h = record {
  pieces = h.pieces;
  recs_are = h.recs_are;
  pieces_are = h.pieces_are;
  offset_is = h.offset_is;
  offsets_are = h.offsets_are;
  count_is = h.count_is;
}

pub Chained-roll :
    (past at : ℕ) (ns : List NodeSpec) (n m : NodeSpec) (k : ℕ)
    → k ≡ at + length ns
    → Chained past at (ns ++ (n ∷ []))
    → m.desc.b_link ≡ k % 2 ^ 32
    → m.desc.f_link ≡ 0
    → Chained past at (ns ++ (link_next (k + 1) n ∷ []) ++ (m ∷ []))
unfolding Chained
Chained-roll past at [] n m k hk (hb, hf) mb mf =
    (hb, omega (arith, hk), (mb ∙ omega (arith, hk), mf))
Chained-roll past at (x ∷ []) n m k hk (hb, hf, c) mb mf =
    (hb, hf, Chained-roll (at % 2 ^ 32) (at + 1) [] n m k (omega (arith, hk)) c mb mf)
Chained-roll past at (x ∷ y ∷ ns) n m k hk (hb, hf, c) mb mf =
    (hb, hf, Chained-roll (at % 2 ^ 32) (at + 1) (y ∷ ns) n m k (omega (arith, hk)) c mb mf)

pub Chained-last :
    (past at : ℕ) (ns : List NodeSpec) (n m : NodeSpec)
    → Chained past at (ns ++ (n ∷ []))
    → m.desc.b_link ≡ n.desc.b_link
    → m.desc.f_link ≡ n.desc.f_link
    → Chained past at (ns ++ (m ∷ []))
unfolding Chained
Chained-last past at [] n m (hb, hf) eb ef = (eb ∙ hb, ef ∙ hf)
Chained-last past at (x ∷ []) n m (hb, hf, c) eb ef =
    (hb, hf, Chained-last (at % 2 ^ 32) (at + 1) [] n m c eb ef)
Chained-last past at (x ∷ y ∷ ns) n m (hb, hf, c) eb ef =
    (hb, hf, Chained-last (at % 2 ^ 32) (at + 1) (y ∷ ns) n m c eb ef)
