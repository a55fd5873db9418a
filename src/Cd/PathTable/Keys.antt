-- ===== src/Cd/PathTable/Keys.antt =====
-- The order of the keys of the path table, and what an insertion and an iterator do with a table that
-- is in order.
use mathlib.Core.Path.{subst}
use fsview.Base.{
  ℕ, ◌≡◌, refl, ap, inl, inr, arith, true, false, List, [], ◌∷◌, ◌++◌, All, Bool-cases, All-append,
}
use fsview.Cd.PathTable.{
  PathEntry, Order, key, key_below, same_key, PathTab, table_insert, next_after,
}

pub key_below_irrefl : (xs : List ℕ) → key_below xs xs ≡ false
key_below_irrefl [] = refl
key_below_irrefl (x ∷ xs) = ground (arith, key_below_irrefl xs)

pub key_below_trans :
    (xs ys zs : List ℕ) → key_below xs ys ≡ true → key_below ys zs ≡ true → key_below xs zs ≡ true
key_below_trans xs ys [] h k = k
key_below_trans [] ys (z ∷ zs) h k = refl
key_below_trans (x ∷ xs) [] (z ∷ zs) h k = cc
key_below_trans (x ∷ xs) (y ∷ ys) (z ∷ zs) h k = ground (arith, key_below_trans xs ys zs)

pub key_below_total :
    (xs ys : List ℕ) → same_key xs ys ≡ false → key_below xs ys ≡ false → key_below ys xs ≡ true
key_below_total [] [] h k = cc
key_below_total [] (y ∷ ys) h k = cc
key_below_total (x ∷ xs) [] h k = refl
key_below_total (x ∷ xs) (y ∷ ys) h k = ground (arith, key_below_total xs ys)

-- A key above another one is neither it nor below it.
pub key_below_asym :
    (xs ys : List ℕ) → key_below xs ys ≡ true → (same_key ys xs ≡ false) × (key_below ys xs ≡ false)
key_below_asym xs [] h = cc
key_below_asym [] (y ∷ ys) h = (refl, refl)
key_below_asym (x ∷ xs) (y ∷ ys) h = ground (arith, key_below_asym xs ys)

abbrev pub Above : Order → Order × PathEntry → Type 0
Above o (j, f) = key_below (key o) (key j) ≡ true

abbrev pub NotAbove : Order → Order × PathEntry → Type 0
NotAbove o (j, f) = key_below (key o) (key j) ≡ false

abbrev pub Ascending : PathTab → Type 0
Ascending [] = Unit
Ascending ((o, e) ∷ tab) = All (Above o) tab × Ascending tab

All-Above_trans :
    (o j : Order) (tab : PathTab)
    → key_below (key o) (key j) ≡ true
    → All (Above j) tab
    → All (Above o) tab
All-Above_trans o j [] h k = tt
All-Above_trans o j ((i, f) ∷ tab) h (k, ks) =
    (key_below_trans (key o) (key j) (key i) h k, All-Above_trans o j tab h ks)

-- What holds of a new element and of the old ones holds after the insertion, where it depends on
-- no more than the key of an element that is replaced.
pub All-insert {κ} :
    (P : Order × PathEntry → Type κ) (o : Order) (e : PathEntry) (tab : PathTab)
    → ((j : Order) → same_key (key o) (key j) ≡ true → P (j, e))
    → P (o, e)
    → All P tab
    → All P (table_insert o e tab)
unfolding table_insert
All-insert P o e [] same p h = (p, tt)
All-insert P o e ((j, f) ∷ tab) same p (k, h) = elim (Bool-cases (same_key (key o) (key j))) [
  | inl old ↦ rw old (same j old, h)
  | inr new ↦ elim (Bool-cases (key_below (key o) (key j))) [
    | inl lower ↦ rw (new, lower) (p, (k, h))
    | inr upper ↦ rw (new, upper) (k, All-insert P o e tab same p h)
  ]
]

pub same_key-eq : (xs ys : List ℕ) → same_key xs ys ≡ true → xs ≡ ys
same_key-eq [] [] h = refl
same_key-eq [] (y ∷ ys) h = cc
same_key-eq (x ∷ xs) [] h = cc
same_key-eq (x ∷ xs) (y ∷ ys) h = ground (arith, same_key-eq xs ys)

pub insert-Ascending :
    (o : Order) (e : PathEntry) (tab : PathTab) → Ascending tab → Ascending (table_insert o e tab)
unfolding table_insert
insert-Ascending o e [] h = (tt, tt)
insert-Ascending o e ((j, f) ∷ tab) (k, h) = elim (Bool-cases (same_key (key o) (key j))) [
  | inl old ↦ rw old (k, h)
  | inr new ↦ elim (Bool-cases (key_below (key o) (key j))) [
    | inl lower ↦ rw (new, lower) ((lower, All-Above_trans o j tab lower k), (k, h))
    | inr upper ↦
        let over = key_below_total (key o) (key j) new upper in
        rw (new, upper)
          (
            All-insert (Above j) o e tab
                (λ i same.
                  subst (λ t. key_below (key j) t ≡ true) (same_key-eq (key o) (key i) same) over)
                over k,
            insert-Ascending o e tab h,
          )
  ]
]

-- Elements below a new key stay in front of it.
pub insert_behind :
    (o : Order) (e : PathEntry) (front tab : PathTab)
    → All (λ (item : Order × PathEntry). Above item.0 (o, e)) front
    → table_insert o e (front ++ tab) ≡ front ++ table_insert o e tab
unfolding table_insert
insert_behind o e [] tab h = refl
insert_behind o e ((j, f) ∷ front) tab (k, h) =
    let (new, over) = key_below_asym (key j) (key o) k in
    rw (new, over) (ap (λ t. (j, f) ∷ t) (insert_behind o e front tab h))

pub next_after_lem :
    (o : Order) (e : PathEntry) (front tab : PathTab)
    → All (NotAbove o) front
    → All (Above o) tab
    → next_after o (front ++ ((o, e) ∷ tab)) ≡ tab
unfolding next_after
next_after_lem o e [] [] h k = rw (key_below_irrefl (key o)) refl
next_after_lem o e [] ((j, f) ∷ tab) h (k, ks) = rw (key_below_irrefl (key o), k) refl
next_after_lem o e ((j, f) ∷ front) tab (h, hs) k = rw h (next_after_lem o e front tab hs k)

pub Ascending-append :
    (xs ys : PathTab)
    → Ascending xs
    → Ascending ys
    → All (λ (item : Order × PathEntry). All (Above item.0) ys) xs
    → Ascending (xs ++ ys)
Ascending-append [] ys hx hy cross = hy
Ascending-append ((o, e) ∷ xs) ys (hx, hxs) hy (c, cs) =
    (All-append (Above o) xs ys hx c, Ascending-append xs ys hxs hy cs)
