-- ===== src/Tests/Kitchen.antt =====
-- The venue with its order in the kitchen: the teas are waiting, the cake is ready.
use io_tables.Common.{◌+◌, none, some, [], ◌∷◌, true}
use io_tables.Actor.{ActorContext, station, service, station_staff, service_staff}
use io_tables.Database.{
  Db, TenantOperationalSettings, StaffHallAssignment, PreparationItem, PreparationTransition,
  granted, pending, preparing, ready,
}
use io_tables.Session.{Session, begin}
use io_tables.Tests.Fixture.{the_cashier, venue}

abbrev pub the_cook : ActorContext
the_cook = record the_cashier { app_scope = station; user_id = some 8; roles = station_staff ∷ [] }

abbrev pub the_waiter : ActorContext
the_waiter = record the_cashier {
  app_scope = service;
  user_id = some 9;
  roles = service_staff ∷ [];
}

abbrev settings : TenantOperationalSettings
settings = record {
  tenant_id = 1;
  public_display_name = none;
  service_delivery_tracking_enabled = true;
  created_at = 5;
  updated_at = 5;
}

abbrev assignment : StaffHallAssignment
assignment = record {
  id = 6;
  tenant_id = 1;
  user_id = 9;
  hall_id = 3;
  status = granted;
  created_at = 5;
  revoked_at = none;
}

abbrev pub tea_item : PreparationItem
tea_item = record {
  id = 70;
  tenant_id = 1;
  order_item_id = 40;
  station_id = 62;
  status = pending;
  cannot_prepare_reason = none;
  updated_by_user_id = none;
  updated_at = 50;
  created_at = 50;
}

abbrev pub cake_item : PreparationItem
cake_item = record tea_item {
  id = 71;
  order_item_id = 41;
  status = ready;
  updated_by_user_id = some 8;
  updated_at = 55;
}

abbrev tea_ordered : PreparationTransition
tea_ordered = record {
  id = 80;
  tenant_id = 1;
  preparation_item_id = 70;
  actor_user_id = none;
  from_status = none;
  to_status = pending;
  reason = none;
  created_at = 50;
}

abbrev cake_ordered : PreparationTransition
cake_ordered = record tea_ordered { id = 81; preparation_item_id = 71 }

abbrev cake_started : PreparationTransition
cake_started = record cake_ordered {
  id = 82;
  actor_user_id = some 8;
  from_status = some pending;
  to_status = preparing;
}

abbrev cake_finished : PreparationTransition
cake_finished = record cake_started { id = 83; from_status = some preparing; to_status = ready }

abbrev pub kitchen : Db
kitchen = record venue {
  tenant_operational_settings = settings ∷ [];
  staff_hall_assignments = assignment ∷ [];
  preparation_items = tea_item ∷ cake_item ∷ [];
  preparation_transitions = tea_ordered ∷ cake_ordered ∷ cake_started ∷ cake_finished ∷ [];
}

-- A request that draws the ids 1000, 1001, .. at the times 100, 101, ..
abbrev pub cooking : Session
cooking = begin kitchen (λ n. 1000 + n) (λ n. 100 + n)
