-- ===== src/Settlement/Billing/Totals.antt =====
-- The sums that make up a bill, and the results that the billing service returns.
use io_tables.Common.{
  ℕ, ◌*◌, ◌-◌, String, Bool, ◌&&◌, Option, none, some, List, map, select, sum, count,
  count_distinct, join, latest, is_none, is_empty, ◌==◌, if◌then◌else◌,
}
use io_tables.Database.{Db, Order, OrderItem, PaymentRow, TableMode, OpenStatus, is_recorded}

pub record CashierTableState : Type 0 where
  pub table_id : ℕ
  pub hall_id : ℕ
  pub table_label : String
  pub hall_label : String
  pub mode : TableMode
  pub table_session_id : Option ℕ
  pub check_id : Option ℕ
  pub status : String
  pub opened_at : Option ℕ
  pub total_minor : ℕ
  pub paid_minor : ℕ
  pub remaining_minor : ℕ

pub record CashierVenueBoard : Type 0 where
  pub tables : List CashierTableState
  pub derived_at : ℕ

pub record ActiveTableSession : Type 0 where
  pub table_session_id : ℕ
  pub table_id : ℕ
  pub hall_id : ℕ
  pub check_id : ℕ
  pub status : OpenStatus
  pub opened_at : ℕ
  pub table_label : String
  pub hall_label : String

pub record BillSummary : Type 0 where
  pub check_id : ℕ
  pub table_session_id : ℕ
  pub total_minor : ℕ
  pub paid_minor : ℕ
  pub remaining_minor : ℕ
  pub currency : String
  pub order_count : ℕ
  pub payment_count : ℕ

pub record ClosedTableSession : Type 0 where
  pub table_session_id : ℕ
  pub check_id : ℕ
  pub closed_at : ℕ
  pub status : OpenStatus

-- The rows of `orders.join(order_items, ..)`.
abbrev pub ordered_items : Db → List (Order × OrderItem)
ordered_items db =
    join (λ o i. (i.tenant_id == o.tenant_id) && (i.order_id == o.id)) db.orders db.order_items

-- The items that a table session has to pay for.
abbrev pub is_billed : ℕ → ℕ → Order × OrderItem → Bool
is_billed tenant_id table_session_id (o, i) =
    (o.tenant_id == tenant_id) && (o.table_session_id == table_session_id) && is_none i.voided_at

-- `_total_minor`
unfoldable pub total_minor : ℕ → ℕ → Db → ℕ
total_minor tenant_id table_session_id db =
    sum (is_billed tenant_id table_session_id) (λ r. r.1.unit_price_minor * r.1.quantity)
      (ordered_items db)

-- The payments that count for a check.
abbrev pub is_paid_on : ℕ → ℕ → PaymentRow → Bool
is_paid_on tenant_id check_id p =
    (p.tenant_id == tenant_id) && (p.check_id == check_id) && is_recorded p.status

unfoldable pub paid_minor : ℕ → ℕ → Db → ℕ
paid_minor tenant_id check_id db =
    sum (is_paid_on tenant_id check_id) (λ p. p.amount_minor) db.payments

-- `value or "TRY"`
abbrev pub or_lira : Option String → String
or_lira none = "TRY"
or_lira (some c) = if is_empty c then "TRY" else c

abbrev pub item_currency : Option (Order × OrderItem) → Option String
item_currency none = none
item_currency (some r) = some r.1.currency_code

-- `_currency`: that of the item that was ordered last.
unfoldable pub currency : ℕ → ℕ → Db → String
currency tenant_id table_session_id db = or_lira (
    item_currency (
      latest (λ r. r.1.created_at)
        (select (is_billed tenant_id table_session_id) (ordered_items db))))

-- `_order_count`
unfoldable pub order_count : ℕ → ℕ → Db → ℕ
order_count tenant_id table_session_id db = count_distinct (
    map (λ o. o.id)
      (select (λ o. (o.tenant_id == tenant_id) && (o.table_session_id == table_session_id))
        db.orders))

-- `_payment_count`
unfoldable pub payment_count : ℕ → ℕ → Db → ℕ
payment_count tenant_id check_id db = count (is_paid_on tenant_id check_id) db.payments

-- `max(total_minor - paid_minor, 0)` is the subtraction of the natural numbers.
unfoldable pub bill_summary_for_check : ℕ → ℕ → ℕ → Db → BillSummary
bill_summary_for_check tenant_id check_id table_session_id db = record {
  check_id = check_id;
  table_session_id = table_session_id;
  total_minor = total_minor tenant_id table_session_id db;
  paid_minor = paid_minor tenant_id check_id db;
  remaining_minor = total_minor tenant_id table_session_id db - paid_minor tenant_id check_id db;
  currency = currency tenant_id table_session_id db;
  order_count = order_count tenant_id table_session_id db;
  payment_count = payment_count tenant_id check_id db;
}
