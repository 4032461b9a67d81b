-- ===== src/Common/RowLaws.antt =====
-- How inserts and updates act on what the queries return.
use Prim.Native.Nat.{ℕ, ◌+◌, ◌≤◌}
use mathlib.Core.Path.{◌≡◌, refl}
use mathlib.Core.Bool.{Bool, true, false, ◌&&◌}
use mathlib.Core.Option
use mathlib.Core.Option.{Option, none, some}
use mathlib.Core.List.{List, [], ◌∷◌, ◌++◌}
use native.Mathlib.Omega.{arith}
use io_tables.Common.Tests.{if◌then◌else◌}
use io_tables.Common.Rows.{select, find, update, insert, sum, count}

-- The first value that is there.
abbrev pub or_else {ℓ} : {A : Type ℓ} → Option A → Option A → Option A
or_else none o = o
or_else (some a) o = some a

module _ {ℓ} {A : Type ℓ} where
  pub find-append :
      (p : A → Bool) (xs ys : List A) → find p (xs ++ ys) ≡ or_else (find p xs) (find p ys)
  find-append p [] ys = refl
  find-append p (x ∷ xs) ys = ground (arith, find-append p xs ys)

  pub select-insert :
      (q : A → Bool) (x : A) (xs : List A)
      → select q (insert x xs) ≡ (if q x then insert x (select q xs) else select q xs)
  select-insert q x [] = refl
  select-insert q x (y ∷ xs) = ground (arith, select-insert q x xs)

  pub sum-insert :
      (p : A → Bool) (f : A → ℕ) (x : A) (xs : List A)
      → sum p f (insert x xs) ≡ sum p f xs + (if p x then f x else 0)
  sum-insert p f x [] = omega arith
  sum-insert p f x (y ∷ xs) = omega (arith, sum-insert p f x xs)

  pub count-insert :
      (p : A → Bool) (x : A) (xs : List A)
      → count p (insert x xs) ≡ count p xs + (if p x then 1 else 0)
  count-insert p x [] = omega arith
  count-insert p x (y ∷ xs) = omega (arith, count-insert p x xs)

  -- An update that leaves the test `p` as it was finds the updated row.
  pub find-update :
      (p q : A → Bool) (f : A → A)
      → ((x : A) → p (f x) ≡ p x)
      → (xs : List A)
      → find p (update q f xs) ≡ Option.map (λ x. if q x then f x else x) (find p xs)
  find-update p q f keeps [] = refl
  find-update p q f keeps (x ∷ xs) = ground (arith, keeps x, find-update p q f keeps xs)

  pub find_sound : (p : A → Bool) (xs : List A) (x : A) → find p xs ≡ some x → p x ≡ true
  find_sound p [] x h = ground arith
  find_sound p (y ∷ xs) x h = ground (arith, find_sound p xs x)

  -- An update that takes its rows out of a sum lowers it by what they were in it.
  pub sum-update :
      (p q : A → Bool) (f : A → ℕ) (g : A → A)
      → ((x : A) → p (g x) ≡ false)
      → (xs : List A) → sum p f (update q g xs) + sum (λ x. q x && p x) f xs ≡ sum p f xs
  sum-update p q f g out [] = omega arith
  sum-update p q f g out (x ∷ xs) = ground (arith, out x, sum-update p q f g out xs)

  sum-none :
      (p q : A → Bool) (f : A → ℕ) (xs : List A) → count q xs ≡ 0 → sum (λ x. q x && p x) f xs ≡ 0
  sum-none p q f [] h = refl
  sum-none p q f (x ∷ xs) h = ground (arith, sum-none p q f xs)

  -- Where at most one row satisfies `q`, the sum over such rows is that of the row found.
  pub sum_unique :
      (p q : A → Bool) (f : A → ℕ) (xs : List A) (x : A)
      → count q xs ≤ 1
      → find q xs ≡ some x
      → sum (λ y. q y && p y) f xs ≡ (if p x then f x else 0)
  sum_unique p q f [] x one h = ground arith
  sum_unique p q f (y ∷ xs) x one h = ground (arith, sum_unique p q f xs x, sum-none p q f xs)

  -- A sharper test finds the same row, if that row passes it, and counts no more rows.
  pub find-sharper :
      (p q : A → Bool)
      → ((x : A) → q x ≡ true → p x ≡ true)
      → (xs : List A) (x : A) → find p xs ≡ some x
      → q x ≡ true
      → find q xs ≡ some x
  find-sharper p q le [] x h qx = ground arith
  find-sharper p q le (y ∷ xs) x h qx = ground (arith, le y, find-sharper p q le xs x)

  -- And none, where the other finds none.
  pub find-sharper_none :
      (p q : A → Bool)
      → ((x : A) → q x ≡ true → p x ≡ true)
      → (xs : List A) → find p xs ≡ none
      → find q xs ≡ none
  find-sharper_none p q le [] h = refl
  find-sharper_none p q le (y ∷ xs) h = ground (arith, le y, find-sharper_none p q le xs)

  find-count : (p : A → Bool) (xs : List A) → count p xs ≡ 0 → find p xs ≡ none
  find-count p [] h = refl
  find-count p (x ∷ xs) h = ground (arith, find-count p xs)

  pub count-none : (p : A → Bool) (xs : List A) → find p xs ≡ none → count p xs ≡ 0
  count-none p [] h = refl
  count-none p (x ∷ xs) h = ground (arith, count-none p xs)

  -- Where at most one row passes a test, a sharper one finds that row or none.
  pub find-sharper_unique :
      (p q : A → Bool)
      → ((x : A) → q x ≡ true → p x ≡ true)
      → (xs : List A) (x : A) → count p xs ≤ 1
      → find p xs ≡ some x
      → find q xs ≡ (if q x then some x else none)
  find-sharper_unique p q le [] x one h = ground arith
  find-sharper_unique p q le (y ∷ xs) x one h =
      ground
        (arith, le y, find-count p xs, find-sharper_none p q le xs, find-sharper_unique p q le xs x)

  -- An update of no row.
  pub update-none : (p : A → Bool) (f : A → A) (xs : List A) → find p xs ≡ none → update p f xs ≡ xs
  update-none p f [] h = refl
  update-none p f (x ∷ xs) h = ground (arith, update-none p f xs)

  pub count-sharper :
      (p q : A → Bool)
      → ((x : A) → q x ≡ true → p x ≡ true)
      → (xs : List A) → count q xs ≤ count p xs
  count-sharper p q le [] = omega arith
  count-sharper p q le (y ∷ xs) = ground (arith, le y, count-sharper p q le xs)

  -- An update that leaves the test as it was leaves its count.
  pub count-update :
      (p q : A → Bool) (f : A → A)
      → ((x : A) → p (f x) ≡ p x)
      → (xs : List A) → count p (update q f xs) ≡ count p xs
  count-update p q f keeps [] = refl
  count-update p q f keeps (x ∷ xs) = ground (arith, keeps x, count-update p q f keeps xs)

  -- An update after which the test fails does not raise its count.
  pub count-update_le :
      (p q : A → Bool) (f : A → A)
      → ((x : A) → p (f x) ≡ false)
      → (xs : List A) → count p (update q f xs) ≤ count p xs
  count-update_le p q f out [] = omega arith
  count-update_le p q f out (x ∷ xs) = ground (arith, out x, count-update_le p q f out xs)

  -- And counts none where it finds the only row that could pass.
  pub count-update_only :
      (p q r : A → Bool) (f : A → A)
      → ((x : A) → p (f x) ≡ false)
      → ((x : A) → p x ≡ true → r x ≡ true)
      → ((x : A) → q x ≡ true → r x ≡ true)
      → (xs : List A) (x : A) → count r xs ≤ 1
      → find q xs ≡ some x
      → count p (update q f xs) ≡ 0
  count-update_only p q r f out le leq [] x one h = ground arith
  count-update_only p q r f out le leq (y ∷ xs) x one h = ground (
    arith,
    out y,
    le y,
    leq y,
    count-sharper r p le xs,
    count-update_le p q f out xs,
    find-count r xs,
    find-sharper_none r q leq xs,
    count-update_only p q r f out le leq xs x,
  )

  -- A row that was found is counted by every test that it passes.
  pub count-found :
      (p q : A → Bool) (xs : List A) (x : A) → find q xs ≡ some x → p x ≡ true → 1 ≤ count p xs
  count-found p q [] x h px = ground arith
  count-found p q (y ∷ xs) x h px = ground (arith, count-found p q xs x)

  -- An update of all rows that pass a test, after which they fail it.
  pub count-update_all :
      (p q : A → Bool) (f : A → A)
      → ((x : A) → p (f x) ≡ false)
      → ((x : A) → p x ≡ true → q x ≡ true)
      → (xs : List A) → count p (update q f xs) ≡ 0
  count-update_all p q f out le [] = refl
  count-update_all p q f out le (x ∷ xs) =
      ground (arith, out x, le x, count-update_all p q f out le xs)
