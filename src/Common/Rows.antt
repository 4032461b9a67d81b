-- ===== src/Common/Rows.antt =====
-- Tables as lists of rows in the order of insertion, and the statements that the program runs on
-- them.
use Prim.Native.Nat.{ℕ, ◌+◌, suc}
use mathlib.Core.Bool.{Bool, false, ◌||◌}
use mathlib.Core.Option.{Option, none, some}
use mathlib.Core.List.{List, [], ◌∷◌, ◌++◌}
use io_tables.Common.Tests.{if◌then◌else◌, leb, ◌==◌}

module _ {ℓ} {A : Type ℓ} where
  -- `.where(p)` of a select, then `.all()`
  abbrev pub select : (A → Bool) → List A → List A
  select p [] = []
  select p (x ∷ xs) = let rest = select p xs in if p x then x ∷ rest else rest

  -- `.where(p)` of a select, then `.first()`
  abbrev pub find : (A → Bool) → List A → Option A
  find p [] = none
  find p (x ∷ xs) = let rest = find p xs in if p x then some x else rest

  -- `update(table).where(p).values(f)`
  abbrev pub update : (A → Bool) → (A → A) → List A → List A
  update p f [] = []
  update p f (x ∷ xs) = (if p x then f x else x) ∷ update p f xs

  -- `delete(table).where(p)`
  abbrev pub delete : (A → Bool) → List A → List A
  delete p [] = []
  delete p (x ∷ xs) = let rest = delete p xs in if p x then rest else x ∷ rest

  -- `insert(table).values(x)`
  abbrev pub insert : A → List A → List A
  insert x xs = xs ++ x ∷ []

  -- `func.sum(f)` over the rows that satisfy `p`, with `coalesce(.., 0)`
  abbrev pub sum : (A → Bool) → (A → ℕ) → List A → ℕ
  sum p f [] = 0
  sum p f (x ∷ xs) = (if p x then f x else 0) + sum p f xs

  abbrev pub count : (A → Bool) → List A → ℕ
  count p [] = 0
  count p (x ∷ xs) = (if p x then 1 else 0) + count p xs

  abbrev pub length : List A → ℕ
  length [] = 0
  length (x ∷ xs) = suc (length xs)

  abbrev pub any : (A → Bool) → List A → Bool
  any p [] = false
  any p (x ∷ xs) = p x || any p xs

  -- The rows in ascending order of a key, equal keys in the order of insertion.
  insert_by : (A → ℕ) → A → List A → List A
  insert_by key x [] = x ∷ []
  insert_by key x (y ∷ ys) =
      let rest = insert_by key x ys in if leb (key x) (key y) then x ∷ y ∷ ys else y ∷ rest

  -- `.order_by(key)`
  unfoldable pub order_by : (A → ℕ) → List A → List A
  unfolding insert_by
  order_by key [] = []
  order_by key (x ∷ xs) = insert_by key x (order_by key xs)

  -- `.order_by(desc(key)).limit(1)`: of rows with one key the first inserted is taken.
  abbrev pub latest : (A → ℕ) → List A → Option A
  latest key [] = none
  latest key (x ∷ xs) = elim (latest key xs) [
    | none ↦ some x
    | some y ↦ if leb (key y) (key x) then some x else some y
  ]

-- The number of different values, as in `func.count(distinct(..))`.
abbrev pub count_distinct : List ℕ → ℕ
count_distinct [] = 0
count_distinct (a ∷ xs) = (if any (λ b. a == b) xs then 0 else 1) + count_distinct xs

abbrev pub elem : ℕ → List ℕ → Bool
elem a = any (λ b. a == b)

-- `x.join(y, on)`
module _ {ℓ κ} {A : Type ℓ} {B : Type κ} where
  abbrev pub matches : (A → B → Bool) → A → List B → List (A × B)
  matches on x [] = []
  matches on x (y ∷ ys) = let rest = matches on x ys in if on x y then (x, y) ∷ rest else rest

  abbrev pub join : (A → B → Bool) → List A → List B → List (A × B)
  join on [] ys = []
  join on (x ∷ xs) ys = matches on x ys ++ join on xs ys
