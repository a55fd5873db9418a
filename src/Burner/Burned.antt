-- ===== src/Burner/Burned.antt =====
-- Planner::commit into any burner that appends the bytes of an extent: where they are then.
use fsview.Base.{
  sym, ℕ, ◌+◌, ◌-◌, ◌<◌, ◌≡◌, ◌∙◌, refl, ap, Option, some, List, [], ◌∷◌, arith, if◌then◌else◌,
  ◌==◌, inl, inr, eq_or_ne, le_or_lt, All,
}
use fsview.Extent.{Extent}
use fsview.Burner.{Planner, BurnerOps, burn_all, commit}
use fsview.Burner.Image.{source_at}

-- A burner holds `size` bytes, of which `byte_of` answers each. It appends an extent that it takes:
-- `read` is what the media are read as, a null medium among them. What else it is asked for leaves
-- its bytes.
pub record IsDevice {S : Type 0} (ops : BurnerOps S) (read : Option ℕ → ℕ → ℕ) (size : S → ℕ)
    (byte_of : S → ℕ → Option ℕ) (takes : Extent → Type 0) : Type 0 where
  pub reserves :
      (n : ℕ) (s : S)
      → (s' : S) × (ops.reserve n s ≡ some s')
        × (size s' ≡ size s)
        × ((i : ℕ) → byte_of s' i ≡ byte_of s i)
  pub burns :
      (x : Extent) (s : S)
      → takes x
      → (s' : S) × (ops.burn x s ≡ some s')
        × (size s' ≡ size s + x.length)
        × ((i : ℕ) → i < size s → byte_of s' i ≡ byte_of s i)
        × ((i : ℕ) → i < x.length → byte_of s' (size s + i) ≡ some (read x.medium (x.offset + i)))
  pub finishes :
      (s : S)
      → (s' : S) × (ops.finish s ≡ some s')
        × (size s' ≡ size s)
        × ((i : ℕ) → byte_of s' i ≡ byte_of s i)

module _ {S : Type 0} {ops : BurnerOps S} {read : Option ℕ → ℕ → ℕ} {size : S → ℕ}
    {byte_of : S → ℕ → Option ℕ} {takes : Extent → Type 0}
    (d : IsDevice ops read size byte_of takes) where
  record Burned (xs : List Extent) (s : S) : Type 0 where
    after : S
    run : burn_all ops xs s ≡ some after
    kept : (i : ℕ) → i < size s → byte_of after i ≡ byte_of s i
    holds :
        (pos : ℕ) {m : Option ℕ} {off : ℕ}
        → source_at xs pos ≡ some (m, off)
        → byte_of after (size s + pos) ≡ some (read m off)

  burn_one :
      (x : Extent) (xs : List Extent) (s s' : S)
      → (if x.length == 0 then some s else ops.burn x s) ≡ some s'
      → size s' ≡ size s + x.length
      → ((i : ℕ) → i < size s → byte_of s' i ≡ byte_of s i)
      → ((i : ℕ) → i < x.length → byte_of s' (size s + i) ≡ some (read x.medium (x.offset + i)))
      → Burned xs s'
      → Burned (x ∷ xs) s
  unfolding burn_all source_at
  burn_one x xs s s' run longer kept here b = record {
    after = b.after;
    run = rw run b.run;
    kept = λ i below. b.kept i (omega (arith, longer)) ∙ kept i below;
    holds = λ pos {m} {off} e. elim (le_or_lt x.length pos) [
      | inl past ↦
          let place : size s + pos ≡ size s' + (pos - x.length) = omega (arith, longer) in
          ap (byte_of b.after) place ∙ b.holds (pos - x.length) (ground arith)
      | inr inside ↦
          let same_m : x.medium ≡ m = ground arith in
          let same_off : x.offset + pos ≡ off = ground arith in
          b.kept (size s + pos) (omega (arith, longer))
          ∙ here pos inside
          ∙ ap (λ t. some (read t (x.offset + pos))) same_m
          ∙ ap (λ t. some (read m t)) same_off
    ];
  }

  burn_all_lem : (xs : List Extent) (s : S) → All takes xs → Burned xs s
  burn_all_lem [] s h = record {
    after = s;
    run = unfold burn_all in refl;
    kept = λ i below. refl;
    holds = λ pos e. unfold source_at in cc;
  }
  burn_all_lem (x ∷ xs) s (hx, hxs) = elim (eq_or_ne x.length 0) [
    | inl empty ↦
        burn_one x xs s s (ground arith) (omega arith) (λ i below. refl)
          (λ i below. absurd (omega arith)) (burn_all_lem xs s hxs)
    | inr ne ↦
        let (s', e, longer, kept, here) = d.burns x s hx in
        burn_one x xs s s' (ground arith) longer kept here (burn_all_lem xs s' hxs)
  ]

  pub commit-holds :
      (p : Planner) (s : S) (pos : ℕ) {m : Option ℕ} {off : ℕ}
      → All takes p.extlist
      → source_at p.extlist pos ≡ some (m, off)
      → (s' : S) × (commit ops p s ≡ some (record p { extlist = [] }, s'))
        × (byte_of s' (size s + pos) ≡ some (read m off))
  unfolding commit
  commit-holds p s pos {m} {off} h e =
      let (s1, e1, size1, kept1) = d.reserves p.offset s in
      let b = burn_all_lem p.extlist s1 h in
      let (s3, e3, size3, kept3) = d.finishes b.after in
      (
        s3,
        rw (e1, b.run, e3) refl,
        kept3 (size s + pos)
            ∙ ap (λ n. byte_of b.after (n + pos)) (sym size1)
            ∙ b.holds pos {m = m} {off = off} e,
      )
