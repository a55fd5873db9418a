-- ===== src/Device/Place.antt =====
-- Where a source byte stands on the target: maps that grow at the end, and translations that stay.
use fsview.Base.{ℕ, ◌+◌, ◌-◌, ◌≤◌, ◌<◌, ◌≡◌, ◌∙◌, refl, List, [], ◌∷◌, arith, some}
use fsview.Base.SortedMap.{insert}
use fsview.Burner.{Planner}
use fsview.Burner.Image.{source_at}
use fsview.Burner.Plan.{Grown}
use fsview.Device.{last_le}

-- The keys of a map, all below a bound.
abbrev pub KeysBelow : ℕ → List (ℕ × ℕ) → Type 0
KeysBelow b [] = Unit
KeysBelow b ((k, v) ∷ m) = (k < b) × KeysBelow b m

-- Putting in a key above all others.
abbrev pub snoc : List (ℕ × ℕ) → ℕ → ℕ → List (ℕ × ℕ)
snoc [] k v = (k, v) ∷ []
snoc ((j, w) ∷ m) k v = (j, w) ∷ snoc m k v

pub insert-snoc : (k v : ℕ) (m : List (ℕ × ℕ)) → KeysBelow k m → insert k v m ≡ snoc m k v
unfolding insert
insert-snoc k v [] h = refl
insert-snoc k v ((j, w) ∷ m) (h1, h2) = ground (arith, insert-snoc k v m)

pub KeysBelow-snoc :
    (b c k v : ℕ) (m : List (ℕ × ℕ)) → KeysBelow b m → b ≤ c → k < c → KeysBelow c (snoc m k v)
KeysBelow-snoc b c k v [] h lt1 lt2 = omega arith
KeysBelow-snoc b c k v ((j, w) ∷ m) (h1, h2) lt1 lt2 =
    (omega arith, KeysBelow-snoc b c k v m h2 lt1 lt2)

-- The last entry at or below `x`, in a map that grows at the end.
pub last_le-snoc_past :
    (x k v : ℕ) (m : List (ℕ × ℕ)) → x < k → last_le x (snoc m k v) ≡ last_le x m
unfolding last_le
last_le-snoc_past x k v [] h = ground arith
last_le-snoc_past x k v ((j, w) ∷ m) h = rw (last_le-snoc_past x k v m h)

pub last_le-snoc_self :
    (x k v : ℕ) (m : List (ℕ × ℕ)) → k ≤ x → KeysBelow k m → last_le x (snoc m k v) ≡ some (k, v)
unfolding last_le
last_le-snoc_self x k v [] h b = ground arith
last_le-snoc_self x k v ((j, w) ∷ m) h (b1, b2) = ground (arith, last_le-snoc_self x k v m h b2)

-- `x` is translated by `m` to a place of the planned image that holds byte `x` of the surface.
pub record Translates (surface x : ℕ) (m : List (ℕ × ℕ)) (p : Planner) : Type 0 where
  pub from : ℕ
  pub to : ℕ
  pub found : last_le x m ≡ some (from, to)
  pub above : from ≤ x
  pub inside : x - from + to < p.offset
  pub source : source_at p.extlist (x - from + to) ≡ some (some surface, x)

-- What was translated stays so while the planner grows, and while keys above `x` are put in.
pub Translates-Grown :
    {surface x : ℕ} {m : List (ℕ × ℕ)} {p q : Planner}
    → Grown p q
    → Translates surface x m p
    → Translates surface x m q
Translates-Grown g t = record {
  from = t.from;
  to = t.to;
  found = t.found;
  above = t.above;
  inside = omega (arith, t.inside, g.up);
  source = g.kept _ t.inside ∙ t.source;
}

pub Translates-snoc :
    {surface x : ℕ} {m : List (ℕ × ℕ)} {p : Planner} (k v : ℕ)
    → x < k
    → Translates surface x m p
    → Translates surface x (snoc m k v) p
Translates-snoc {m = m} k v lt t = record {
  from = t.from;
  to = t.to;
  found = last_le-snoc_past _ k v m lt ∙ t.found;
  above = t.above;
  inside = t.inside;
  source = t.source;
}
