-- ===== src/Ordering/Pricing.antt =====
-- `validate_and_price_cart_item` of modules/ordering/customer_ordering.py.
pub mod Laws
use io_tables.Common.{
  ℕ, ℤ, ◌+◌, String, Bool, true, false, not, ◌&&◌, ◌||◌, Option, none, some, List, [], ◌∷◌, ◌++◌,
  find, any, elem, select, map, length, ltb, ◌==◌, if◌then◌else◌,
}
use io_tables.Errors.{item_not_orderable, variant_invalid, modifier_invalid}
use io_tables.Session.{Exec, ◌>>=◌, ◌>>◌, pure, raise_if, or_raise, utc_now}
use io_tables.Ordering.Menu.{
  ProductService, CustomerMenuOption, CustomerMenuModifierGroup, product_to_customer_menu_product,
}

pub record CartItemWriteCommand : Type 0 where
  pub client_cart_item_id : String
  pub product_id : ℕ
  pub variant_id : ℕ
  pub modifier_option_ids : List ℕ
  pub quantity : ℤ
  pub note : Option String

-- `set(ids)`, each id once.
abbrev pub distinct : List ℕ → List ℕ
distinct [] = []
distinct (a ∷ ids) = let rest = distinct ids in if elem a ids then rest else a ∷ rest

abbrev pub is_option : ℕ → List CustomerMenuOption → Bool
is_option option_id = any (λ o. o.option_id == option_id)

-- `selected & group_option_ids`
abbrev pub selected_in_group : List ℕ → CustomerMenuModifierGroup → List ℕ
selected_in_group selected g = select (λ option_id. is_option option_id g.options) selected

-- The selection breaks a bound of the group.
abbrev pub is_out_of_bounds : List ℕ → CustomerMenuModifierGroup → Bool
is_out_of_bounds selected g =
    ltb (length (selected_in_group selected g)) g.min_selections
    || ltb g.max_selections (length (selected_in_group selected g))

-- The options of all groups, in the order in which their prices are stored.
abbrev pub all_options : List CustomerMenuModifierGroup → List CustomerMenuOption
all_options [] = []
all_options (g ∷ groups) = g.options ++ all_options groups

-- `option_prices[option_id]`: of options with one id the last is stored. An id without an option is
-- refused before its price is asked for.
abbrev pub price_of : ℕ → List CustomerMenuOption → ℕ
price_of option_id [] = 0
price_of option_id (o ∷ options) =
    let rest = price_of option_id options in
    if is_option option_id options
    then rest
    else if o.option_id == option_id
    then o.price_delta_minor
    else 0

-- `sum(option_prices[option_id] for option_id in selected)`
abbrev pub sum_prices : List CustomerMenuOption → List ℕ → ℕ
sum_prices options [] = 0
sum_prices options (option_id ∷ selected) = price_of option_id options + sum_prices options selected

unfoldable pub validate_and_price_cart_item : ProductService → CartItemWriteCommand → Exec ℕ
validate_and_price_cart_item product command = do
  now ← utc_now
  customer_product ← or_raise (product_to_customer_menu_product product now) item_not_orderable
  variant ←
      or_raise (find (λ v. v.variant_id == command.variant_id) customer_product.variants)
        variant_invalid
  raise_if
      (any (is_out_of_bounds (distinct command.modifier_option_ids))
        customer_product.modifier_groups)
      modifier_invalid
  raise_if
      (any (λ option_id. not (is_option option_id (all_options customer_product.modifier_groups)))
        (distinct command.modifier_option_ids))
      modifier_invalid
  pure (
      variant.price_minor
      + sum_prices (all_options customer_product.modifier_groups)
          (distinct command.modifier_option_ids))
