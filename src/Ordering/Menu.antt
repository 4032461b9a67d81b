-- ===== src/Ordering/Menu.antt =====
-- A product of modules/tenant_setup/menu_catalog.py, and what of it a guest can order.
use io_tables.Common.{
  ℕ, String, Bool, true, false, not, ◌&&◌, ◌||◌, Option, none, some, List, map, select, any, latest,
  length, leb, ltb, ◌==◌, if◌then◌else◌,
}

-- product_availability_overrides.state
pub data AvailabilityState : Type 0 where
  available unavailable : AvailabilityState

pub record ProductVariant : Type 0 where
  pub variant_id : ℕ
  pub product_id : ℕ
  pub name : String
  pub price_minor : ℕ
  pub currency_code : String
  pub display_order : ℕ
  pub is_default : Bool
  pub enabled : Bool

pub record ModifierOption : Type 0 where
  pub option_id : ℕ
  pub group_id : ℕ
  pub name : String
  pub price_delta_minor : ℕ
  pub currency_code : String
  pub available : Bool
  pub display_order : ℕ

pub record ModifierGroup : Type 0 where
  pub group_id : ℕ
  pub product_id : ℕ
  pub name : String
  pub required : Bool
  pub min_selections : ℕ
  pub max_selections : ℕ
  pub display_order : ℕ
  pub options : List ModifierOption

pub record AvailabilityOverride : Type 0 where
  pub override_id : ℕ
  pub product_id : ℕ
  pub variant_id : Option ℕ
  pub state : AvailabilityState
  pub reason : Option String
  pub starts_at : Option ℕ
  pub ends_at : Option ℕ
  pub created_at : ℕ

pub record ProductService : Type 0 where
  pub product_id : ℕ
  pub category_id : ℕ
  pub station_id : ℕ
  pub name : String
  pub description : Option String
  pub enabled : Bool
  pub variants : List ProductVariant
  pub modifier_groups : List ModifierGroup
  pub availability : List AvailabilityOverride
  pub created_at : ℕ
  pub updated_at : ℕ

pub record CustomerMenuVariant : Type 0 where
  pub variant_id : ℕ
  pub name : String
  pub price_minor : ℕ
  pub currency_code : String
  pub display_order : ℕ
  pub is_default : Bool

pub record CustomerMenuOption : Type 0 where
  pub option_id : ℕ
  pub name : String
  pub price_delta_minor : ℕ
  pub currency_code : String
  pub display_order : ℕ

pub record CustomerMenuModifierGroup : Type 0 where
  pub group_id : ℕ
  pub name : String
  pub required : Bool
  pub min_selections : ℕ
  pub max_selections : ℕ
  pub display_order : ℕ
  pub options : List CustomerMenuOption

pub record CustomerMenuProduct : Type 0 where
  pub product_id : ℕ
  pub category_id : ℕ
  pub name : String
  pub description : Option String
  pub variants : List CustomerMenuVariant
  pub modifier_groups : List CustomerMenuModifierGroup

-- `override.variant_id == variant_id`
abbrev pub same_scope : Option ℕ → Option ℕ → Bool
same_scope none none = true
same_scope (some a) (some b) = a == b
same_scope _ _ = false

-- `starts_at is None or starts_at <= now`
abbrev pub has_started : Option ℕ → ℕ → Bool
has_started none now = true
has_started (some starts_at) now = leb starts_at now

-- `ends_at is None or ends_at > now`
abbrev pub has_not_ended : Option ℕ → ℕ → Bool
has_not_ended none now = true
has_not_ended (some ends_at) now = ltb now ends_at

abbrev pub is_in_force : Option ℕ → ℕ → AvailabilityOverride → Bool
is_in_force variant_id now o =
    same_scope o.variant_id variant_id && has_started o.starts_at now && has_not_ended o.ends_at now

abbrev pub state_of_override : Option AvailabilityOverride → Option AvailabilityState
state_of_override none = none
state_of_override (some o) = some o.state

-- `max` takes the first of the latest.
unfoldable pub latest_active_availability_state :
    List AvailabilityOverride → Option ℕ → ℕ → Option AvailabilityState
latest_active_availability_state overrides variant_id now =
    state_of_override (latest (λ o. o.created_at) (select (is_in_force variant_id now) overrides))

-- `== "unavailable"`
abbrev pub is_unavailable : Option AvailabilityState → Bool
is_unavailable (some unavailable) = true
is_unavailable _ = false

abbrev pub menu_variant : ProductVariant → CustomerMenuVariant
menu_variant v = record {
  variant_id = v.variant_id;
  name = v.name;
  price_minor = v.price_minor;
  currency_code = v.currency_code;
  display_order = v.display_order;
  is_default = v.is_default;
}

abbrev pub menu_option : ModifierOption → CustomerMenuOption
menu_option o = record {
  option_id = o.option_id;
  name = o.name;
  price_delta_minor = o.price_delta_minor;
  currency_code = o.currency_code;
  display_order = o.display_order;
}

abbrev pub menu_group : ModifierGroup → CustomerMenuModifierGroup
menu_group g = record {
  group_id = g.group_id;
  name = g.name;
  required = g.required;
  min_selections = g.min_selections;
  max_selections = g.max_selections;
  display_order = g.display_order;
  options = map menu_option (select (λ o. o.available) g.options);
}

-- The variants that a guest sees.
unfoldable pub menu_variants : ProductService → ℕ → List CustomerMenuVariant
menu_variants product now = map menu_variant (
    select
      (λ v.
        v.enabled
        && not (
            is_unavailable
              (latest_active_availability_state product.availability (some v.variant_id) now)))
      product.variants)

-- `now` is the clock reading that the function takes.
unfoldable pub product_to_customer_menu_product : ProductService → ℕ → Option CustomerMenuProduct
product_to_customer_menu_product product now =
    if is_unavailable (latest_active_availability_state product.availability none now)
      || not (any (λ v. v.is_default) (menu_variants product now))
      || any (λ g. g.required && ltb (length g.options) g.min_selections)
          (map menu_group product.modifier_groups)
    then none
    else some (record {
      product_id = product.product_id;
      category_id = product.category_id;
      name = product.name;
      description = product.description;
      variants = menu_variants product now;
      modifier_groups = map menu_group product.modifier_groups;
    })
