-- ===== src/Ordering/Pricing/Laws.antt =====
-- The price of a cart item, option by option.
use io_tables.Common.{
  ℕ, ◌+◌, ◌≡◌, refl, Bool, true, false, not, ◌&&◌, ◌||◌, some, List, [], ◌∷◌, find, any, elem, sum,
  arith, ◌==◌, if◌then◌else◌, Bool-cases, inl, inr,
}
use io_tables.Errors.{modifier_invalid}
use io_tables.Session.{◌>>=◌, Session, ok, err}
use io_tables.Ordering.Menu.{
  ProductService, CustomerMenuOption, CustomerMenuProduct, CustomerMenuVariant,
  product_to_customer_menu_product,
}
use io_tables.Ordering.Pricing.{
  CartItemWriteCommand, distinct, is_option, all_options, price_of, sum_prices, is_out_of_bounds,
  validate_and_price_cart_item,
}

-- No two options have one id.
abbrev pub has_no_repeats : List CustomerMenuOption → Bool
has_no_repeats [] = true
has_no_repeats (o ∷ options) = not (is_option o.option_id options) && has_no_repeats options

price_of_absent :
    (a : ℕ) (options : List CustomerMenuOption)
    → is_option a options ≡ false
    → price_of a options ≡ 0
price_of_absent a [] absent = refl
price_of_absent a (o ∷ options) absent = ground (arith, price_of_absent a options)

-- One more id adds its option's price.
sum-prices_step :
    (a : ℕ) (ids : List ℕ) (options : List CustomerMenuOption)
    → elem a ids ≡ false
    → has_no_repeats options ≡ true
    → sum (λ o. elem o.option_id (a ∷ ids)) (λ o. o.price_delta_minor) options
      ≡ price_of a options + sum (λ o. elem o.option_id ids) (λ o. o.price_delta_minor) options
sum-prices_step a ids [] fresh distinct_ids = refl
sum-prices_step a ids (o ∷ options) fresh distinct_ids =
    ground (arith, sum-prices_step a ids options fresh, price_of_absent a options)

sum-prices_again :
    (a : ℕ) (ids : List ℕ) (options : List CustomerMenuOption)
    → elem a ids ≡ true
    → sum (λ o. elem o.option_id (a ∷ ids)) (λ o. o.price_delta_minor) options
      ≡ sum (λ o. elem o.option_id ids) (λ o. o.price_delta_minor) options
sum-prices_again a ids [] again = refl
sum-prices_again a ids (o ∷ options) again = ground (arith, sum-prices_again a ids options)

nothing_selected :
    (options : List CustomerMenuOption)
    → 0 ≡ sum (λ o. elem o.option_id []) (λ o. o.price_delta_minor) options
nothing_selected [] = refl
nothing_selected (o ∷ options) = omega (arith, nothing_selected options)

-- The loop over the selected ids adds up the prices of the options that are selected.
sum_prices-distinct :
    (ids : List ℕ) (options : List CustomerMenuOption)
    → has_no_repeats options ≡ true
    → sum_prices options (distinct ids)
      ≡ sum (λ o. elem o.option_id ids) (λ o. o.price_delta_minor) options
sum_prices-distinct [] options h = nothing_selected options
sum_prices-distinct (a ∷ ids) options h = elim (Bool-cases (elem a ids)) [
  | inl again ↦
      ground (arith, sum_prices-distinct ids options h, sum-prices_again a ids options again)
  | inr fresh ↦
      ground (arith, sum_prices-distinct ids options h, sum-prices_step a ids options fresh h)
]

-- The selection breaks the bounds of a group, or names something that no group offers.
abbrev pub is_bad_selection : List ℕ → CustomerMenuProduct → Bool
is_bad_selection ids p =
    any (is_out_of_bounds (distinct ids)) p.modifier_groups
    || any (λ option_id. not (is_option option_id (all_options p.modifier_groups))) (distinct ids)

-- A product that guests see, in a variant that they see, is priced at the variant's price and the
-- prices of the options whose ids are selected, each once, where no two options share an id; and
-- refused for its modifiers where a group's bounds are broken or a selected id is not offered.
pub validate_and_price_decides :
    (product : ProductService) (command : CartItemWriteCommand) (p : CustomerMenuProduct)
    (v : CustomerMenuVariant) (s : Session)
    → product_to_customer_menu_product product (s.clock s.read) ≡ some p
    → find (λ v. v.variant_id == command.variant_id) p.variants ≡ some v
    → has_no_repeats (all_options p.modifier_groups) ≡ true
    → (validate_and_price_cart_item product command s).0 ≡ (
        if is_bad_selection command.modifier_option_ids p
        then err modifier_invalid
        else ok (
            v.price_minor
            + sum
                (λ o. elem o.option_id command.modifier_option_ids)
                (λ o. o.price_delta_minor)
                (all_options p.modifier_groups)))
unfolding validate_and_price_cart_item ◌>>=◌
validate_and_price_decides product command p v s shown at_variant no_repeats =
    let total =
      sum_prices-distinct command.modifier_option_ids (all_options p.modifier_groups) no_repeats in
    elim (Bool-cases
      (any (is_out_of_bounds (distinct command.modifier_option_ids)) p.modifier_groups)) [
        | inl broken ↦ simp (shown, at_variant, broken)
        | inr kept ↦
            elim (Bool-cases (
              any (λ option_id. not (is_option option_id (all_options p.modifier_groups)))
                (distinct command.modifier_option_ids))) [
                  | inl unknown ↦ simp (shown, at_variant, kept, unknown)
                  | inr offered ↦ simp (shown, at_variant, kept, offered, total)
                ]
      ]
