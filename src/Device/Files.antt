-- ===== src/Device/Files.antt =====
-- Geometry::writeFiles and Colonies::withinDisk over all media.
use mathlib.Core.Path.{subst, subst₂}
use fsview.Base.{
  ℕ, suc, ◌+◌, ◌-◌, ◌^◌, ◌≤◌, ◌<◌, ◌≡◌, ◌∙◌, inl, inr, refl, sym, List, [], ◌∷◌, arith, some,
  eq_or_ne, ◌≢◌,
}
use fsview.Base.SortedMap.{insert, lookup, lookup_or, lookup-insert, SortedAbove, IsSorted}
use fsview.Extent.{Media}
use fsview.Extent.Rounding.{pow_bounds}
use fsview.Burner.{Planner}
use fsview.Burner.Image.{source_at, source_at-lt}
use fsview.Base.Words.{sadd64_small}
use fsview.Burner.Plan.{IsPlanned, Grown, Grown-refl, Grown-trans}
use fsview.Device.{
  Territory, Geometry, Colonies, write_ranges, write_plan, write_files, within_disk,
}
use fsview.Device.Merge.{OrderedFrom, Covered}
use fsview.Device.Place.{Translates, Translates-Grown}
use fsview.Device.Write.{footprint, write_ranges_lem}

abbrev Plan : Type 0
Plan = List (ℕ × Territory)

-- Ids are at least `b`, and ascend.
abbrev IdsFrom : ℕ → Plan → Type 0
IdsFrom b [] = Unit
IdsFrom b ((id, t) ∷ rest) = (b ≤ id) × IdsFrom (suc id) rest

-- A chart is in order, and its medium is known.
abbrev pub IsCharted : List (ℕ × ℕ) → Plan → Type 0
IsCharted d_map [] = Unit
IsCharted d_map ((id, t) ∷ rest) =
    OrderedFrom 0 t × ((m : ℕ) × (lookup id d_map ≡ some m)) × IsCharted d_map rest

unfoldable pub footprint_all : ℕ → Plan → ℕ
footprint_all blk_sz [] = 0
footprint_all blk_sz ((id, t) ∷ rest) = footprint blk_sz t + footprint_all blk_sz rest

-- Byte `x` of the medium `id`, whose pointer is `surface`, is found through the colonies.
abbrev Located : ℕ → ℕ → ℕ → Colonies → Planner → Type 0
Located surface id x c q =
    (m : List (ℕ × ℕ)) × (lookup id c.plan ≡ some m) × Translates surface x m q

record WrotePlan (k b : ℕ) (d_map : List (ℕ × ℕ)) (plan : Plan) (c : Colonies) (p : Planner)
    (c' : Colonies) (q : Planner) : Type 0 where
  ok : write_plan (2 ^ k) d_map plan c p ≡ some (c', q)
  valid : IsPlanned q
  grown : Grown p q
  same_area : c'.area_offset ≡ c.area_offset
  keeps : (id surface x : ℕ) → id < b → Located surface id x c p → Located surface id x c' q
  brings :
      (id surface x : ℕ) {t : Territory}
      → lookup id plan ≡ some t
      → lookup id d_map ≡ some surface
      → Covered x t
      → Located surface id x c' q

lookup_or-insert_ne :
    (i k : ℕ) (m : List (ℕ × ℕ)) (plan : List (ℕ × List (ℕ × ℕ)))
    → i ≢ k
    → lookup_or i [] (insert k m plan) ≡ lookup_or i [] plan
unfolding insert lookup_or
lookup_or-insert_ne i k m [] h = ground arith
lookup_or-insert_ne i k m ((j, w) ∷ rest) h = ground (arith, lookup_or-insert_ne i k m rest h)

Located-insert :
    (surface id x k : ℕ) (m : List (ℕ × ℕ)) (c : Colonies) (q : Planner)
    → id ≢ k
    → Located surface id x c q
    → Located surface id x (record c { plan = insert k m c.plan }) q
Located-insert surface id x k m c q ne (m0, e, t) =
    (m0, lookup-insert k id m c.plan ∙ ground arith, t)

lookup-cons_eq :
    (j id : ℕ) (t : Territory) (rest : Plan) {u : Territory}
    → j ≡ id
    → lookup j ((id, t) ∷ rest) ≡ some u
    → t ≡ u
unfolding lookup
lookup-cons_eq j id t rest same e = ground arith

lookup-cons_ne :
    (j id : ℕ) (t : Territory) (rest : Plan) {u : Territory}
    → j ≢ id
    → lookup j ((id, t) ∷ rest) ≡ some u
    → lookup j rest ≡ some u
unfolding lookup
lookup-cons_ne j id t rest ne e = ground arith

write_plan_cons :
    (k : ℕ) (d_map : List (ℕ × ℕ)) (id s : ℕ) (t : Territory) (rest : Plan) (c : Colonies)
    (p : Planner) {m : List (ℕ × ℕ)} {q : Planner}
    → lookup id d_map ≡ some s
    → lookup_or id [] c.plan ≡ []
    → write_ranges (2 ^ k) s t [] p ≡ some (m, q)
    → write_plan (2 ^ k) d_map ((id, t) ∷ rest) c p
      ≡ write_plan (2 ^ k) d_map rest (record c { plan = insert id m c.plan }) q
unfolding write_plan
write_plan_cons k d_map id s t rest c p known fresh ok = rw (known, fresh, ok)

write_plan_lem :
    (k b : ℕ) (d_map : List (ℕ × ℕ)) (plan : Plan) (c : Colonies) (p : Planner)
    → k < 63
    → IdsFrom b plan
    → IsCharted d_map plan
    → ((i : ℕ) → b ≤ i → lookup_or i [] c.plan ≡ [])
    → IsPlanned p
    → p.offset + footprint_all (2 ^ k) plan ≤ 2 ^ 63
    → (c' : Colonies) × (q : Planner) × WrotePlan k b d_map plan c p c' q
unfolding footprint_all
write_plan_lem k b d_map [] c p hk ids charted fresh v room = (
  c,
  p,
  record {
    ok = unfold write_plan in refl;
    valid = v;
    grown = Grown-refl p;
    same_area = refl;
    keeps = λ id surface x lt t. t;
    brings = λ id surface x e f. unfold lookup in cc;
  },
)
write_plan_lem k b d_map ((id, t) ∷ rest) c p hk (i1, i2) (ord, (s, known), charted) fresh v room =
    let (m, q, w) = write_ranges_lem k s 0 t [] p hk (pow_bounds k hk).0 ord tt v (omega arith) in
    let c1 : Colonies = record c { plan = insert id m c.plan } in
    let fresh1 : (i : ℕ) → suc id ≤ i → lookup_or i [] c1.plan ≡ [] =
      λ i le. lookup_or-insert_ne i id m c.plan (omega arith) ∙ fresh i (omega arith) in
    let (c', r, done) =
      write_plan_lem k (suc id) d_map rest c1 q hk i2 charted fresh1 w.valid
        (omega (arith, w.size)) in
    (
      c',
      r,
      record {
        ok = write_plan_cons k d_map id s t rest c p known (fresh id i1) w.ok ∙ done.ok;
        valid = done.valid;
        grown = Grown-trans w.grown done.grown;
        same_area = done.same_area;
        keeps = λ j surface x lt (m0, e, tr). done.keeps j surface x (omega arith) (
            Located-insert surface j x id m c q (omega arith) (m0, e, Translates-Grown w.grown tr));
        brings = λ j surface x e f cov. elim (eq_or_ne j id) [
          | inl same ↦
              let t_eq = lookup-cons_eq j id t rest same e in
              let s_eq : s ≡ surface = cc in
              let tr : Translates surface x m q =
                subst (λ u. Translates u x m q) s_eq
                  (w.brings x (subst (Covered x) (sym t_eq) cov)) in
              done.keeps j surface x (omega arith)
                (m, lookup-insert id j m c.plan ∙ ground arith, tr)
          | inr ne ↦ done.brings j surface x (lookup-cons_ne j id t rest ne e) f cov
        ];
      },
    )

IdsFrom-SortedAbove : (b : ℕ) (plan : Plan) → SortedAbove b plan → IdsFrom (suc b) plan
IdsFrom-SortedAbove b [] h = tt
IdsFrom-SortedAbove b ((id, t) ∷ rest) (h1, h2) = (h1, IdsFrom-SortedAbove id rest h2)

IdsFrom-IsSorted : (plan : Plan) → IsSorted plan → IdsFrom 0 plan
IdsFrom-IsSorted [] h = tt
IdsFrom-IsSorted ((id, t) ∷ rest) h = (omega arith, IdsFrom-SortedAbove id rest h)

-- Charts under ascending ids, each in order, of media that are known.
pub record IsReady (g : Geometry) : Type 0 where
  pub sorted : IsSorted g.plan
  pub charted : IsCharted g.d_map g.plan

-- Translating `x` of the medium `m` gives the place of the image that holds byte `x` of `surface`.
pub record Lands (media : Media) (m surface x : ℕ) (c : Colonies) (q : Planner) : Type 0 where
  pub place : ℕ
  pub answer :
      (len : ℕ)
      → within_disk media (record { offset = x; length = len; medium = some m }) c ≡ some place
  pub holds : source_at q.extlist place ≡ some (some surface, x)

Located-Lands :
    (media : Media) (m surface x : ℕ) (c : Colonies) (q : Planner)
    → IsPlanned q
    → Located surface ((media m).id) x c q
    → Lands media m surface x c q
Located-Lands media m surface x c q v (m0, e, t) = record {
  place = x - t.from + t.to;
  answer = λ len.
      let below = source_at-lt q.extlist (x - t.from + t.to) t.source in
      let sum = sadd64_small (x - t.from) t.to (omega (arith, v.counted, v.small)) in
      unfold within_disk in rw (e, t.found) sum;
  holds = t.source;
}

-- All charted bytes land, once writeFiles has made `c` and `q` of `p`.
module _ (media : Media) (k : ℕ) (g : Geometry) (p : Planner) (hk : k < 63) (ready : IsReady g)
    (v : IsPlanned p) (room : p.offset + footprint_all (2 ^ k) g.plan ≤ 2 ^ 63) where
  written :
      (c : Colonies) × (q : Planner) × WrotePlan k 0 g.d_map g.plan
        (record { area_offset = p.offset; plan = [] })
        p
        c
        q
  written =
      write_plan_lem k 0 g.d_map g.plan (record { area_offset = p.offset; plan = [] }) p hk
        (IdsFrom-IsSorted g.plan ready.sorted) ready.charted (λ i le. unfold lookup_or in refl) v
        room

  -- For ready charts (under ascending ids, each in order, of known media) and a target with room
  -- for their padded ranges, writeFiles succeeds, keeps the invariant of the planner and what it
  -- held, and records the offset at which the file area begins.
  pub write_files_total :
      (c : Colonies) × (q : Planner) × (write_files (2 ^ k) g p ≡ some (c, q))
      × IsPlanned q
      × Grown p q
      × (c.area_offset ≡ p.offset)
  unfolding write_files
  write_files_total = let (c, q, w) = written in (c, q, w.ok, w.valid, w.grown, w.same_area)

  -- Under the same conditions, after writeFiles has succeeded, withinDisk takes every byte that a
  -- chart covers to the place of the planned image that stands for this very byte of the medium.
  pub write_files-Lands :
      (m surface x : ℕ) {t : Territory} {c : Colonies} {q : Planner}
      → write_files (2 ^ k) g p ≡ some (c, q)
      → lookup ((media m).id) g.plan ≡ some t
      → lookup ((media m).id) g.d_map ≡ some surface
      → Covered x t
      → Lands media m surface x c q
  unfolding write_files
  write_files-Lands m surface x {c = c} {q} ok inplan indmap cov =
      let (c0, q0, w) = written in
      let same_c : c0 ≡ c = cc (w.ok) in
      let same_q : q0 ≡ q = cc (w.ok) in
      subst₂ (Lands media m surface x) same_c same_q (
        Located-Lands media m surface x c0 q0 w.valid
          (w.brings ((media m).id) surface x inplan indmap cov))
