-- ===== src/Cd/Plan/Front.antt =====
-- The front of a CD: the reserved area, and behind it the volume descriptors.
use fsview.Base.{
  ℕ, ◌+◌, ◌-◌, ◌*◌, ◌%◌, ◌^◌, ◌≤◌, ◌<◌, ◌≡◌, ◌∙◌, refl, ap, arith, none, some, List, length,
}
use fsview.Extent.{Extent, Media, zero_extent}
use fsview.Burner.{Planner, append, auto_pad, pad_to, wrap_to_go, block_size}
use fsview.Burner.Image.{source_at, pushed}
use fsview.Burner.Plan.{IsPlanned, append_lem, append-Fits}
use fsview.Burner.Padding.{pad_to_lem}
use fsview.Base.Words.{sub64}
use fsview.Volume.{plan_reserved}
use fsview.Cd.Descriptors.{plan_headers}
use fsview.Cd.Descriptors.Headers.{AtBlocks, AtBlocks-Grown, SameDevice, headers_laid}
use fsview.Cd.Plan.{hand_over, plan_front}

-- The descriptors are in the planner of the metadata, in blocks from its offset on, and what it holds
-- from there on follows the reserved area in the output.
pub FrontAt : Media → ℕ → List ℕ → ℕ → Planner → Planner → Type 0
FrontAt media blk vols end_vol out tmp =
    (out' : Planner) × (tmp' : Planner) × (plan_front media none blk vols end_vol out tmp
      ≡ some (out', tmp'))
    × AtBlocks tmp' blk tmp.offset vols
    × ((j : ℕ)
        → j < (length vols + 1) * blk
        → source_at out'.extlist (out.offset + 0x8000 + j) ≡ some (some tmp.burner, tmp.offset + j))

same_block_size :
    (media : Media) (p q : Planner) → SameDevice p q → block_size media q ≡ block_size media p
unfolding block_size
same_block_size media p q (burner, client) = rw (burner, client) refl

reserved :
    (out tmp : Planner) {out1 : Planner}
    → append (zero_extent 0x8000) out ≡ some (out.offset, out1)
    → plan_reserved none out tmp 0x8000 ≡ some (out1, tmp)
unfolding plan_reserved
reserved out tmp h =
    let none_yet : sub64 out.offset out.offset ≡ 0 = omega arith in rw (none_yet, h) refl

hand_over_run :
    (media : Media) (tmp_blk out_blk since pad pad' at : ℕ) (out tmp out2 q out' : Planner)
    → block_size media tmp ≡ tmp_blk
    → pad_to tmp_blk tmp ≡ some (pad, q)
    → append (record { offset = since; length = q.offset - since; medium = some q.burner }) out
      ≡ some (at, out2)
    → block_size media out2 ≡ out_blk
    → pad_to out_blk out2 ≡ some (pad', out')
    → hand_over media since out tmp ≡ some (out', q)
unfolding hand_over wrap_to_go auto_pad
hand_over_run media tmp_blk out_blk since pad pad' at out tmp out2 q out' e1 e2 e3 e4 e5 =
    rw (e1, e2, e3, e4, e5) refl

front_run :
    (media : Media) (blk since end_vol : ℕ) (vols : List ℕ) (out tmp out1 h : Planner)
    (r : Planner × Planner)
    → plan_reserved none out tmp 0x8000 ≡ some (out1, tmp)
    → plan_headers blk vols end_vol tmp ≡ some (since, h)
    → hand_over media since out1 h ≡ some r
    → plan_front media none blk vols end_vol out tmp ≡ some r
unfolding plan_front
front_run media blk since end_vol vols out tmp out1 h r e1 e2 e3 = rw (e1, e2, e3) refl

-- With no slave, blocks of the volume of 2 ^ k bytes, of at least 1024, devices whose blocks are powers
-- of two, planners in order and with room, and the one of the metadata at the start of a block of the
-- volume: the front is planned. The
-- descriptors begin the blocks of the metadata in their order, and those blocks come at 32 KiB
-- from the offset of the output.
pub plan_front-FrontAt :
    (media : Media) (k m n : ℕ) (vols : List ℕ) (end_vol : ℕ) (out tmp : Planner)
    → 10 ≤ k
    → k < 60
    → m < 60
    → n < 60
    → IsPlanned out
    → IsPlanned tmp
    → block_size media out ≡ 2 ^ m
    → block_size media tmp ≡ 2 ^ n
    → tmp.offset % 2 ^ k ≡ 0
    → out.offset + 0x8000 + (length vols + 1) * 2 ^ k + 2 ^ n + 2 ^ m < 2 ^ 63
    → tmp.offset + (length vols + 2) * 2 ^ k + 2 ^ n < 2 ^ 63
    → FrontAt media (2 ^ k) vols end_vol out tmp
unfolding FrontAt zero_extent
plan_front-FrontAt media k m n vols end_vol out tmp lo hk hm hn v w out_blk tmp_blk start room
      room' =
    let two : (length vols + 2) * 2 ^ k ≡ (length vols + 1) * 2 ^ k + 2 ^ k = grind arith in
    let one : (length vols + 1) * 2 ^ k ≡ length vols * 2 ^ k + 2 ^ k = grind arith in
    let free = zero_extent 0x8000 in
    let out1 : Planner = record out {
      extlist = pushed free out.extlist;
      offset = out.offset + 0x8000;
    } in
    let e1 : append free out ≡ some (out.offset, out1) =
      append-Fits free out (omega arith, omega arith) in
    let d1 = append_lem free v e1 in
    let h = headers_laid k vols end_vol tmp lo hk w start (omega arith) in
    let (q, e2, padded) = pad_to_lem n (omega arith) h.valid (omega (arith, h.advanced)) in
    let x : Extent = record {
      offset = tmp.offset;
      length = q.offset - tmp.offset;
      medium = some q.burner;
    } in
    let size = h.advanced in
    let near = padded.near in
    let up = padded.grown.up in
    let out2 : Planner = record out1 {
      extlist = pushed x out1.extlist;
      offset = out1.offset + x.length;
    } in
    let e3 : append x out1 ≡ some (out1.offset, out2) =
      append-Fits x out1 (omega arith, omega arith) in
    let d3 = append_lem x d1.valid e3 in
    let (out', e4, padded') = pad_to_lem m (omega arith) d3.valid (omega (arith, d3.advanced)) in
    let tmp_size = same_block_size media tmp h.after h.same ∙ tmp_blk in
    let out_size = same_block_size media out out2 (d3.same_burner, d3.same_client) ∙ out_blk in
    (
      out',
      q,
      front_run media (2 ^ k) tmp.offset end_vol vols out tmp out1 h.after (out', q)
          (reserved out tmp e1) h.run
          (hand_over_run media (2 ^ n) (2 ^ m) tmp.offset _ _ out1.offset out1 h.after out2 q out'
            tmp_size e2 e3 out_size e4),
      AtBlocks-Grown k lo hk tmp.offset vols padded.grown (omega arith) h.descriptors_at,
      λ j small.
          padded'.grown.kept (out.offset + 0x8000 + j) (omega (arith, d3.advanced))
          ∙ d3.laid j (omega arith)
          ∙ ap (λ b. some (some b, tmp.offset + j)) (padded.same_burner ∙ h.same.0),
    )
