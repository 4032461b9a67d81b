-- ===== src/Common/JoinLaws.antt =====
-- What a query finds in a join.
use Prim.Native.Nat.{◌≤◌}
use mathlib.Core.Path.{◌≡◌, refl, ap}
use mathlib.Core.Bool.{Bool, true}
use mathlib.Core.Option
use mathlib.Core.Option.{Option, none, some}
use mathlib.Core.List.{List, [], ◌∷◌, ◌++◌, map, map-append}
use native.Mathlib.Omega.{arith}
use mathlib.Core.Logic.{inl, inr}
use io_tables.Common.Tests.{if◌then◌else◌, Bool-cases}
use io_tables.Common.Rows.{count, find, select, matches, join, insert, update}
use io_tables.Common.RowLaws.{or_else, find-append, find-update}

module _ {ℓ κ} {A : Type ℓ} {B : Type κ} (q : A → Bool) (on : A → B → Bool) where
  pub find-matches :
      (x : A) (ys : List B)
      → find (λ r. q r.0) (matches on x ys)
        ≡ (if q x then Option.map (λ y. (x, y)) (find (on x) ys) else none)
  find-matches x [] = ground arith
  find-matches x (y ∷ ys) = ground (arith, find-matches x ys)

  -- The first row of a join that a test on the left table accepts, row by row.
  pub find-join :
      (x : A) (xs : List A) (ys : List B)
      → find (λ r. q r.0) (join on (x ∷ xs) ys)
        ≡ or_else
            (if q x then Option.map (λ y. (x, y)) (find (on x) ys) else none)
            (find (λ r. q r.0) (join on xs ys))
  find-join x xs ys =
      ground (arith, find-append (λ r. q r.0) (matches on x ys) (join on xs ys), find-matches x ys)

  pub find-join-none :
      (xs : List A) (ys : List B) → find q xs ≡ none → find (λ r. q r.0) (join on xs ys) ≡ none
  find-join-none [] ys h = refl
  find-join-none (x ∷ xs) ys h = ground (arith, find-join x xs ys, find-join-none xs ys)

  pub find-join-insert :
      (x : A) (xs : List A) (ys : List B)
      → find (λ r. q r.0) (join on (insert x xs) ys)
        ≡ or_else
            (find (λ r. q r.0) (join on xs ys))
            (if q x then Option.map (λ y. (x, y)) (find (on x) ys) else none)
  find-join-insert x [] ys = ground (arith, find-join x [] ys)
  find-join-insert x (z ∷ xs) ys =
      ground (arith, find-join z xs ys, find-join z (insert x xs) ys, find-join-insert x xs ys)

module _ {ℓ κ} {A : Type ℓ} {B : Type κ} (q : A → Bool) (on : A → B → Bool) where
  -- What is found in a join is a row of the left table with its first match.
  pub find-join_sound :
      (xs : List A) (ys : List B) (x : A) (y : B)
      → find (λ r. q r.0) (join on xs ys) ≡ some (x, y)
      → (q x ≡ true) × (find (on x) ys ≡ some y)
  find-join_sound [] ys x y h = ground arith
  find-join_sound (z ∷ xs) ys x y h =
      ground (arith, find-join q on z xs ys, find-join_sound xs ys x y)

  -- And it is counted by every test that it passes.
  pub count-join_found :
      (p : A → Bool) (xs : List A) (ys : List B) (x : A) (y : B)
      → find (λ r. q r.0) (join on xs ys) ≡ some (x, y)
      → p x ≡ true
      → 1 ≤ count p xs
  count-join_found p [] ys x y h px = ground arith
  count-join_found p (z ∷ xs) ys x y h px =
      ground (arith, find-join q on z xs ys, count-join_found p xs ys x y)

  -- An update of the left table that touches neither test nor join shows in the row that is found.
  pub find-join-update :
      (p : A → Bool) (f : A → A)
      → ((x : A) → q (f x) ≡ q x)
      → ((x : A) → on (f x) ≡ on x)
      → (xs : List A) (ys : List B)
      → find (λ r. q r.0) (join on (update p f xs) ys)
        ≡ Option.map (λ r. (if p r.0 then f r.0 else r.0, r.1)) (find (λ r. q r.0) (join on xs ys))
  find-join-update p f hq hon [] ys = refl
  find-join-update p f hq hon (x ∷ xs) ys = elim (Bool-cases (p x)) [
    | inl e ↦ ground (
      arith,
      hq x,
      ap (λ (o : B → Bool). find o ys) (hon x),
      find-join q on (f x) (update p f xs) ys,
      find-join q on x xs ys,
      find-join-update p f hq hon xs ys,
    )
    | inr e ↦ ground (
      arith,
      find-join q on x (update p f xs) ys,
      find-join q on x xs ys,
      find-join-update p f hq hon xs ys,
    )
  ]

  -- The same for an update of the right table.
  pub find-join-update_right :
      (p : B → Bool) (g : B → B)
      → ((x : A) (y : B) → on x (g y) ≡ on x y)
      → (xs : List A) (ys : List B)
      → find (λ r. q r.0) (join on xs (update p g ys))
        ≡ Option.map (λ r. (r.0, if p r.1 then g r.1 else r.1)) (find (λ r. q r.0) (join on xs ys))
  find-join-update_right p g hon [] ys = refl
  find-join-update_right p g hon (x ∷ xs) ys = ground (
    arith,
    find-join q on x xs (update p g ys),
    find-join q on x xs ys,
    find-update (on x) p g (hon x) ys,
    find-join-update_right p g hon xs ys,
  )

module _ {ℓ} {A : Type ℓ} where
  select-append : (p : A → Bool) (xs ys : List A) → select p (xs ++ ys) ≡ select p xs ++ select p ys
  select-append p [] ys = refl
  select-append p (x ∷ xs) ys = ground (arith, select-append p xs ys)

module _ {ℓ κ} {A : Type ℓ} {B : Type κ} (p : A → Bool) (on : A → B → Bool) (q : A → Bool)
    (f : A → A) (keeps : (x : A) → p (f x) ≡ p x)
    (same : (x : A) (y : B) → on (f x) y ≡ on x y) where
  abbrev pub updated : A × B → A × B
  updated r = (if q r.0 then f r.0 else r.0, r.1)

  select-matches-update :
      (x : A) (ys : List B)
      → select (λ r. p r.0) (matches on (if q x then f x else x) ys)
        ≡ map updated (select (λ r. p r.0) (matches on x ys))
  select-matches-update x [] = refl
  select-matches-update x (y ∷ ys) = ground (arith, keeps x, same x y, select-matches-update x ys)

  -- The pairs behind an update of the left rows are those before it, with the rows updated.
  pub select-join-update :
      (xs : List A) (ys : List B)
      → select (λ r. p r.0) (join on (update q f xs) ys)
        ≡ map updated (select (λ r. p r.0) (join on xs ys))
  select-join-update [] ys = refl
  select-join-update (x ∷ xs) ys = simp (
    select-append (λ r. p r.0) (matches on (if q x then f x else x) ys)
        (join on (update q f xs) ys),
    select-append (λ r. p r.0) (matches on x ys) (join on xs ys),
    select-matches-update x ys,
    select-join-update xs ys,
    map-append updated (select (λ r. p r.0) (matches on x ys))
        (select (λ r. p r.0) (join on xs ys)),
  )
