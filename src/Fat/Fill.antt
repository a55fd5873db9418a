-- ===== src/Fat/Fill.antt =====
-- VFatMedium::fill: the vector loop against the scalar one.
use fsview.Base.{ℕ, zero, suc, ◌+◌, ◌*◌, ◌%◌, ◌^◌, ◌<◌, ◌≡◌, refl, sym, ◌∷◌, arith}
use fsview.Fat.{Quad, add_step, fill_scalar, fill_vector, store_quads}

abbrev quad_at : ℕ → Quad
quad_at s = record {
  a = (1 + s) % 2 ^ 32;
  b = (2 + s) % 2 ^ 32;
  c = (3 + s) % 2 ^ 32;
  d = (4 + s) % 2 ^ 32;
}

step_quad : (s : ℕ) → add_step (quad_at s) ≡ quad_at ((s + 4) % 2 ^ 32)
step_quad s =
    let ea : ((1 + s) % 2 ^ 32 + 4) % 2 ^ 32 ≡ (1 + (s + 4) % 2 ^ 32) % 2 ^ 32 = omega arith in
    let eb : ((2 + s) % 2 ^ 32 + 4) % 2 ^ 32 ≡ (2 + (s + 4) % 2 ^ 32) % 2 ^ 32 = omega arith in
    let ec : ((3 + s) % 2 ^ 32 + 4) % 2 ^ 32 ≡ (3 + (s + 4) % 2 ^ 32) % 2 ^ 32 = omega arith in
    let ed : ((4 + s) % 2 ^ 32 + 4) % 2 ^ 32 ≡ (4 + (s + 4) % 2 ^ 32) % 2 ^ 32 = omega arith in
    rw (ea, eb, ec, ed) refl

scalar_four :
    (s n : ℕ)
    → fill_scalar s (suc (suc (suc (suc n))))
      ≡ (1 + s) % 2 ^ 32
        ∷ (2 + s) % 2 ^ 32
        ∷ (3 + s) % 2 ^ 32
        ∷ (4 + s) % 2 ^ 32
        ∷ fill_scalar ((s + 4) % 2 ^ 32) n
unfolding fill_scalar
scalar_four s n =
    let e1 : (s + 1) % 2 ^ 32 ≡ (1 + s) % 2 ^ 32 = omega arith in
    let e2 : ((1 + s) % 2 ^ 32 + 1) % 2 ^ 32 ≡ (2 + s) % 2 ^ 32 = omega arith in
    let e3 : ((2 + s) % 2 ^ 32 + 1) % 2 ^ 32 ≡ (3 + s) % 2 ^ 32 = omega arith in
    let e4 : ((3 + s) % 2 ^ 32 + 1) % 2 ^ 32 ≡ (4 + s) % 2 ^ 32 = omega arith in
    let e5 : (s + 4) % 2 ^ 32 ≡ (4 + s) % 2 ^ 32 = omega arith in rw (e1, e2, e3, e4, e5) refl

store_quads-fill_scalar :
    (s count : ℕ) → s < 2 ^ 32 → store_quads (quad_at s) count ≡ fill_scalar s (count * 4)
unfolding store_quads
store_quads-fill_scalar s zero h = unfold fill_scalar in refl
store_quads-fill_scalar s (suc count) h =
    let s4 : ℕ = (s + 4) % 2 ^ 32 in
    let ih = store_quads-fill_scalar s4 count (omega arith) in
    let four : suc count * 4 ≡ suc (suc (suc (suc (count * 4)))) = omega arith in
    rw (step_quad s, ih, four) (sym (scalar_four s (count * 4)))

-- From a start below 2 ^ 32, the vector loop over `count` vectors writes the same words as the
-- scalar loop over four times as many words.
pub fill_vector-fill_scalar :
    (start_val count : ℕ)
    → start_val < 2 ^ 32
    → fill_vector start_val count ≡ fill_scalar start_val (count * 4)
unfolding fill_vector
fill_vector-fill_scalar start_val count h = store_quads-fill_scalar start_val count h
