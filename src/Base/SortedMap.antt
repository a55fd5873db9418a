-- ===== src/Base/SortedMap.antt =====
-- std::map over numeric keys: a list of pairs in ascending order of the key.
use mathlib.Core.Path.{◌≡◌, refl}
use mathlib.Core.Option.{Option, none, some}
use mathlib.Core.List.{List, [], ◌∷◌}
use native.Mathlib.Omega.{arith}
use Prim.Native.Nat.{ℕ, ◌<◌}
use fsview.Base.Tests.{ltb, ◌==◌, if◌then◌else◌}

module _ {ℓ} {V : Type ℓ} where
  -- `m[k] = v`
  unfoldable pub insert : ℕ → V → List (ℕ × V) → List (ℕ × V)
  insert k v [] = (k, v) ∷ []
  insert k v ((j, w) ∷ m) =
      if k == j then (k, v) ∷ m else if ltb k j then (k, v) ∷ (j, w) ∷ m else (j, w) ∷ insert k v m

  unfoldable pub lookup : ℕ → List (ℕ × V) → Option V
  lookup k [] = none
  lookup k ((j, w) ∷ m) = if k == j then some w else lookup k m

  -- `m[k]` where a missing key reads as `d`
  unfoldable pub lookup_or : ℕ → V → List (ℕ × V) → V
  lookup_or k d [] = d
  lookup_or k d ((j, w) ∷ m) = if k == j then w else lookup_or k d m

  -- Every key is above `b`, and above those before it.
  abbrev pub SortedAbove : ℕ → List (ℕ × V) → Type 0
  SortedAbove b [] = Unit
  SortedAbove b ((j, w) ∷ m) = (b < j) × SortedAbove j m

  abbrev pub IsSorted : List (ℕ × V) → Type 0
  IsSorted [] = Unit
  IsSorted ((j, w) ∷ m) = SortedAbove j m

  pub lookup-insert :
      (k i : ℕ) (v : V) (m : List (ℕ × V))
      → lookup i (insert k v m) ≡ (if i == k then some v else lookup i m)
  unfolding insert lookup
  lookup-insert k i v [] = refl
  lookup-insert k i v ((j, w) ∷ m) = ground (arith, lookup-insert k i v m)

  pub lookup_or-insert :
      (k i : ℕ) (v d : V) (m : List (ℕ × V))
      → lookup_or i d (insert k v m) ≡ (if i == k then v else lookup_or i d m)
  unfolding insert lookup_or
  lookup_or-insert k i v d [] = refl
  lookup_or-insert k i v d ((j, w) ∷ m) = ground (arith, lookup_or-insert k i v d m)

  insert-SortedAbove :
      (b k : ℕ) (v : V) (m : List (ℕ × V)) → b < k → SortedAbove b m → SortedAbove b (insert k v m)
  unfolding insert
  insert-SortedAbove b k v [] lt h = omega arith
  insert-SortedAbove b k v ((j, w) ∷ m) lt (hj, hm) = ground (arith, insert-SortedAbove j k v m)

  pub insert-IsSorted : (k : ℕ) (v : V) (m : List (ℕ × V)) → IsSorted m → IsSorted (insert k v m)
  unfolding insert
  insert-IsSorted k v [] h = tt
  insert-IsSorted k v ((j, w) ∷ m) h = ground (arith, insert-SortedAbove j k v m)
