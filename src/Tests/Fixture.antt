-- ===== src/Tests/Fixture.antt =====
-- A venue with one table at which one order, of two teas and a cake, is open.
use io_tables.Common.{◌+◌, none, some, [], ◌∷◌, true}
use io_tables.Actor.{ActorContext, tenant_user, cashier_app, cashier}
use io_tables.Database.{
  Db, Hall, VenueTable, TableSession, Check, Order, OrderItem, opened, physical,
}
use io_tables.Session.{Session, begin}

abbrev pub empty : Db
empty = record {
  tenant_operational_settings = [];
  halls = [];
  venue_tables = [];
  staff_hall_assignments = [];
  table_display_credentials = [];
  table_access_tokens = [];
  table_sessions = [];
  checks = [];
  customer_ordering_sessions = [];
  customer_carts = [];
  customer_cart_items = [];
  orders = [];
  order_items = [];
  order_submit_idempotency = [];
  preparation_items = [];
  preparation_transitions = [];
  delivery_states = [];
  delivery_transitions = [];
  delivery_bulk_idempotency = [];
  payments = [];
  payment_idempotency = [];
  payment_void_idempotency = [];
  cashier_corrections = [];
  session_closures = [];
  audit_events = [];
  tenants = [];
  users = [];
  credentials = [];
  login_sessions = [];
  totp_factors = [];
  platform_role_assignments = [];
  staff_profiles = [];
  staff_role_assignments = [];
  otp_challenges = [];
  otp_attempts = [];
  message_deliveries = [];
}

abbrev pub the_cashier : ActorContext
the_cashier = record {
  actor_type = tenant_user;
  app_scope = cashier_app;
  user_id = some 7;
  tenant_id = some 1;
  roles = cashier ∷ [];
  session_id = some 8;
}

abbrev pub hall : Hall
hall = record {
  id = 3;
  tenant_id = 1;
  name = "Garden";
  display_order = 1;
  table_number_base = 100;
  enabled = true;
  created_at = 5;
  updated_at = 5;
}

abbrev pub table : VenueTable
table = record {
  id = 4;
  tenant_id = 1;
  hall_id = 3;
  table_number = 101;
  name = "Garden 1";
  display_order = 1;
  mode = physical;
  enabled = true;
  created_at = 5;
  updated_at = 5;
}

abbrev pub table_session : TableSession
table_session = record {
  id = 10;
  tenant_id = 1;
  table_id = 4;
  status = opened;
  opened_at = 50;
  closed_at = none;
  created_at = 50;
  updated_at = 50;
}

abbrev pub check : Check
check = record {
  id = 20;
  tenant_id = 1;
  table_session_id = 10;
  status = opened;
  opened_at = 50;
  closed_at = none;
}

abbrev pub order : Order
order = record {
  id = 30;
  tenant_id = 1;
  customer_ordering_session_id = 31;
  table_session_id = 10;
  submitted_at = 50;
  created_at = 50;
}

abbrev pub teas : OrderItem
teas = record {
  id = 40;
  tenant_id = 1;
  order_id = 30;
  product_service_id = 60;
  product_variant_id = 61;
  station_id = 62;
  name_snapshot = "Tea";
  variant_name_snapshot = "Glass";
  unit_price_minor = 150;
  currency_code = "TRY";
  modifier_snapshot = [];
  quantity = 2;
  note = none;
  voided_at = none;
  voided_by_user_id = none;
  void_reason = none;
  created_at = 50;
}

abbrev pub cake : OrderItem
cake = record teas { id = 41; name_snapshot = "Cake"; unit_price_minor = 500; quantity = 1 }

-- The bill is 800.
abbrev pub venue : Db
venue = record empty {
  halls = hall ∷ [];
  venue_tables = table ∷ [];
  table_sessions = table_session ∷ [];
  checks = check ∷ [];
  orders = order ∷ [];
  order_items = teas ∷ cake ∷ [];
}

-- A request that draws the ids 1000, 1001, .. at the times 100, 101, ..
abbrev pub start : Session
start = begin venue (λ n. 1000 + n) (λ n. 100 + n)
