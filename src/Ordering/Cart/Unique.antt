-- ===== src/Ordering/Cart/Unique.antt =====
-- At most one row of a cart has one client id, as the unique constraint of `customer_cart_items`
-- asks: writing and removing items keep it so.
use io_tables.Common.{
  ℕ, ◌≤◌, ◌≡◌, refl, String, Bool, true, false, List, [], ◌∷◌, any, count, update, insert, delete,
  eq_iff, arith, count-insert, count-update, Bool-cases, inl, inr,
}
use io_tables.Database.{CustomerCartItemRow}
use io_tables.Ordering.Pricing.{CartItemWriteCommand}
use io_tables.Ordering.Cart.{is_item, upsert, new_cart_item, set_cart_item}

pub record IsUnique (rows : List CustomerCartItemRow) : Type 0 where
  pub one :
      (tenant_id cart_id : ℕ) (client_cart_item_id : String)
      → count (is_item tenant_id cart_id client_cart_item_id) rows ≤ 1

module _ {ℓ} {A : Type ℓ} where
  count-any :
      (p q : A → Bool) → ((x : A) → p x ≡ q x) → (xs : List A) → any q xs ≡ false → count p xs ≡ 0
  count-any p q same [] h = refl
  count-any p q same (x ∷ xs) h = ground (arith, same x, count-any p q same xs)

  count-delete_le : (p q : A → Bool) (xs : List A) → count p (delete q xs) ≤ count p xs
  count-delete_le p q [] = omega arith
  count-delete_le p q (x ∷ xs) = ground (arith, count-delete_le p q xs)

-- Two tests that a row passes are the same test.
is_item_same :
    (t c : ℕ) (k : String) (row x : CustomerCartItemRow)
    → is_item t c k row ≡ true
    → is_item t c k x ≡ is_item row.tenant_id row.cart_id row.client_cart_item_id x
is_item_same t c k row x h = ground (arith, eq_iff row.client_cart_item_id k)

module _ (tenant_id cart_id : ℕ) (command : CartItemWriteCommand) (unit_price now item_id : ℕ)
    (rows : List CustomerCartItemRow) (inv : IsUnique rows) where
  abbrev same : CustomerCartItemRow → Bool
  same = is_item tenant_id cart_id command.client_cart_item_id

  abbrev written : CustomerCartItemRow
  written = new_cart_item tenant_id cart_id command unit_price now item_id

  updated_one :
      (t c : ℕ) (k : String)
      → count (is_item t c k) (update same (set_cart_item command unit_price now) rows) ≤ 1
  updated_one t c k = omega (
    arith,
    inv.one t c k,
    count-update (is_item t c k) same (set_cart_item command unit_price now) (λ x. refl) rows,
  )

  inserted_one :
      (t c : ℕ) (k : String)
      → any same rows ≡ false
      → count (is_item t c k) (insert written rows) ≤ 1
  inserted_one t c k absent = elim (Bool-cases (is_item t c k written)) [
    | inl its ↦ grind (
      arith,
      count-insert (is_item t c k) written rows,
      count-any (is_item t c k) same (λ x. is_item_same t c k written x its) rows absent,
    )
    | inr other ↦ grind (arith, inv.one t c k, other, count-insert (is_item t c k) written rows)
  ]

  pub upsert-IsUnique : IsUnique (upsert same (set_cart_item command unit_price now) written rows)
  upsert-IsUnique = record {
    one = λ t c k. elim (Bool-cases (any same rows)) [
      | inl there ↦ rw there (updated_one t c k)
      | inr absent ↦ rw absent (inserted_one t c k absent)
    ];
  }

pub delete-IsUnique :
    (q : CustomerCartItemRow → Bool) (rows : List CustomerCartItemRow)
    → IsUnique rows
    → IsUnique (delete q rows)
delete-IsUnique q rows inv = record {
  one = λ t c k. omega (arith, inv.one t c k, count-delete_le (is_item t c k) q rows);
}
