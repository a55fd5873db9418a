-- ===== src/Base/Below.antt =====
-- Statements on all small numbers, by computing them.
use Prim.Native.Nat.{ℕ, zero, suc, ◌<◌}
use mathlib.Core.Path.{◌≡◌, refl, ap, ◌∙◌, sym}
use mathlib.Core.Bool.{Bool, true, false, ◌&&◌}
use mathlib.Core.Logic.{inl, inr}
use native.Mathlib.Omega.{arith}
use fsview.Base.Tests.{eq_or_ne}

abbrev pub all_below : ℕ → (ℕ → Bool) → Bool
all_below zero p = true
all_below (suc n) p = p n && all_below n p

abbrev pub same_bool : Bool → Bool → Bool
same_bool true true = true
same_bool true false = false
same_bool false true = false
same_bool false false = true

both_left : (a b : Bool) → (a && b) ≡ true → a ≡ true
both_left true b h = refl
both_left false b h = h

both_right : (a b : Bool) → (a && b) ≡ true → b ≡ true
both_right true b h = h
both_right false b h = absurd (cc)

pub same_bool-eq : (a b : Bool) → same_bool a b ≡ true → a ≡ b
same_bool-eq true true h = refl
same_bool-eq true false h = absurd (cc)
same_bool-eq false true h = absurd (cc)
same_bool-eq false false h = refl

pub all_below_at : (n : ℕ) (p : ℕ → Bool) → all_below n p ≡ true → (k : ℕ) → k < n → p k ≡ true
all_below_at zero p h k lt = absurd (omega arith)
all_below_at (suc n) p h k lt = elim (eq_or_ne n k) [
  | inl e ↦ ap p (sym e) ∙ both_left (p n) (all_below n p) h
  | inr ne ↦ all_below_at n p (both_right (p n) (all_below n p) h) k (omega arith)
]
