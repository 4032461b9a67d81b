-- ===== src/Tests/Fulfillment.antt =====
-- The fulfillment services on the venue.
use io_tables.Common.{◌+◌, ◌≡◌, refl, false, none, some, [], ◌∷◌, arith, order_by, strip}
use io_tables.Actor.{has_role}
use io_tables.Database.{DeliveryState, picked_up, delivered}
use io_tables.Errors.{invalid_delivery_transition, bulk_item_invalid, not_ready_for_delivery}
use io_tables.Session.{Session, ok, err, ◌>>=◌, case_option, begin}
use io_tables.Fulfillment.Preparation.{load_preparation_item}
use io_tables.Fulfillment.Preparation.Trace.{IsTraced}
use io_tables.Fulfillment.Preparation.Requests.{
  serve_station, start_preparing_request, mark_ready_request, station_here, station_next, logs_lead,
  final_stays,
}
use io_tables.Fulfillment.Delivery.{
  ServiceItem, is_tracked, service_items, load_ready_item, load_bulk_ready_items,
  load_delivery_state, require_service_staff_context, ensure_hall_scope, new_state, applied,
  create_state, advance_state, delivery_writes, apply_delivery_transition, delivery_transition,
  BulkDelivery, BulkDeliveryResult, load_bulk_idempotency, deliver_each, deliver_rows, deliver_new,
  bulk_mark_delivered, mark_delivered, mark_picked_up, transition_from, make_transition,
}
use io_tables.Fulfillment.Delivery.Each.{AllDelivered}
use io_tables.Fulfillment.Delivery.Steps.{delivery_transition_refused}
use io_tables.Fulfillment.Delivery.BulkSteps.{
  bulk_mark_delivered_refused, bulk_mark_delivered_delivers,
}
use io_tables.Fulfillment.Delivery.Accept.{first_step, delivery_accepts}
use io_tables.Fulfillment.Delivery.Again.{delivered_at_once, delivered_again}
use io_tables.Fulfillment.Delivery.Trace.{IsLogged}
use io_tables.Fulfillment.Delivery.Logs.{delivery_logs_lead}
use io_tables.Fulfillment.Delivery.Requests.{
  serve_service, mark_picked_up_request, bulk_mark_delivered_request, service_here, service_next,
  delivered_stays,
}
use io_tables.Tests.Fixture.{table, table_session, cake}
use io_tables.Tests.Kitchen.{the_cook, the_waiter, cake_item, kitchen, cooking}

kitchen-IsTraced : IsTraced kitchen
unfolding load_preparation_item
kitchen-IsTraced tenant_id preparation_item_id row found = ground arith

logs_lead_example :
    IsTraced
      (serve_station the_cook (λ n. 1000 + n) (λ n. 100 + n) kitchen (start_preparing_request 70))
logs_lead_example =
    logs_lead kitchen-IsTraced (
      station_next the_cook (λ n. 1000 + n) (λ n. 100 + n) (start_preparing_request 70)
        station_here)

final_stays_example :
    load_preparation_item 1 71
      (serve_station the_cook (λ n. 1000 + n) (λ n. 100 + n) kitchen (mark_ready_request 71))
    ≡ some cake_item
unfolding load_preparation_item
final_stays_example =
    final_stays 1 71 cake_item refl refl
      (station_next the_cook (λ n. 1000 + n) (λ n. 100 + n) (mark_ready_request 71) station_here)

-- The cake on its way to the table.
abbrev cake_service : ServiceItem
cake_service = record {
  preparation = cake_item;
  item = cake;
  table_session = table_session;
  table = table;
  delivery = none;
}

delivery_accepts_example :
    delivery_transition the_waiter 41 delivered cooking
    ≡ (ok (applied cake_service delivered 100), first_step 1 9 41 delivered cooking)
unfolding has_role is_tracked load_ready_item service_items load_delivery_state
delivery_accepts_example =
    delivery_accepts the_waiter 1 9 41 cake_service delivered cooking refl refl refl refl refl refl
      refl

-- The session behind it.
abbrev served : Session
served = begin (first_step 1 9 41 delivered cooking).db (λ n. 2000 + n) (λ n. 200 + n)

abbrev cake_state : DeliveryState
cake_state = new_state 1 9 41 delivered 100 1000

-- A pick-up comes in between.
abbrev asked_again : Session
asked_again =
    begin
      (serve_service the_waiter (λ n. 2000 + n) (λ n. 200 + n)
        (mark_delivered the_waiter 41 cooking).1.committed (mark_picked_up_request 41))
      (λ n. 3000 + n) (λ n. 300 + n)

delivered_again_example :
    (mark_delivered the_waiter 41 asked_again ≡ (
      ok (delivered_at_once (record cake_service { delivery = some cake_state }) 41 100),
      asked_again,
    ))
    × (mark_picked_up the_waiter 41 asked_again ≡ (err invalid_delivery_transition, asked_again))
unfolding has_role is_tracked load_ready_item service_items load_delivery_state serve_service
    mark_delivered mark_picked_up delivery_transition require_service_staff_context
    ensure_hall_scope make_transition apply_delivery_transition delivery_writes create_state
    transition_from case_option ◌>>=◌
delivered_again_example =
    delivered_again the_waiter the_waiter 1 9 9 41 cake_service
      (record cake_service { delivery = some cake_state }) cooking asked_again refl refl refl refl
      refl refl refl
      (service_next the_waiter (λ n. 2000 + n) (λ n. 200 + n) (mark_picked_up_request 41)
        service_here)
      refl refl refl refl refl refl

too_late : (delivery_transition the_waiter 40 picked_up cooking).0 ≡ err not_ready_for_delivery
unfolding delivery_transition require_service_staff_context has_role is_tracked load_ready_item
    service_items ◌>>=◌
too_late = refl

delivery_transition_refused_example :
    (delivery_transition the_waiter 40 picked_up cooking).1.committed ≡ cooking.committed
delivery_transition_refused_example =
    delivery_transition_refused the_waiter 40 picked_up cooking too_late

abbrev tray : BulkDelivery
tray = record {
  table_id = 4;
  order_item_ids = 41 ∷ [];
  idempotency_key = "b1";
  request_hash = "h1";
}

abbrev tray_answer : BulkDeliveryResult
tray_answer = record {
  table_id = 4;
  delivered_items = applied cake_service delivered 100 ∷ [];
  already_delivered_items = [];
  delivered_at = some 100;
  actor_display_name = none;
  duplicate = false;
}

tray_taken : (bulk_mark_delivered the_waiter tray cooking).0 ≡ ok tray_answer
unfolding bulk_mark_delivered require_service_staff_context has_role is_tracked strip
    load_bulk_idempotency deliver_new load_bulk_ready_items service_items order_by ensure_hall_scope
    deliver_rows deliver_each load_delivery_state apply_delivery_transition delivery_writes
    create_state advance_state case_option ◌>>=◌
tray_taken = refl

no_key : load_bulk_idempotency 1 9 "b1" cooking.db ≡ none
unfolding load_bulk_idempotency
no_key = refl

bulk_mark_delivered_delivers_example :
    AllDelivered 1
      (load_bulk_ready_items 1 (41 ∷ []) cooking.db)
      (bulk_mark_delivered the_waiter tray cooking).1.committed
bulk_mark_delivered_delivers_example =
    bulk_mark_delivered_delivers the_waiter 1 9 tray cooking refl refl no_key tray_answer tray_taken

-- The teas are not ready.
abbrev full_tray : BulkDelivery
full_tray = record tray { order_item_ids = 41 ∷ 40 ∷ [] }

tray_too_full : (bulk_mark_delivered the_waiter full_tray cooking).0 ≡ err bulk_item_invalid
unfolding bulk_mark_delivered require_service_staff_context has_role is_tracked strip
    load_bulk_idempotency deliver_new load_bulk_ready_items service_items order_by case_option ◌>>=◌
tray_too_full = refl

bulk_mark_delivered_refused_example :
    (bulk_mark_delivered the_waiter full_tray cooking).1.committed ≡ cooking.committed
bulk_mark_delivered_refused_example =
    bulk_mark_delivered_refused the_waiter full_tray cooking tray_too_full

delivered_stays_example :
    load_delivery_state 1 41 (
      serve_service the_waiter (λ n. 1000 + n) (λ n. 100 + n) served.db (mark_picked_up_request 41))
    ≡ some cake_state
unfolding load_delivery_state
delivered_stays_example = delivered_stays 1 41 cake_state refl refl (
    service_next the_waiter (λ n. 1000 + n) (λ n. 100 + n) (mark_picked_up_request 41) service_here)

kitchen-IsLogged : IsLogged kitchen
unfolding load_delivery_state
kitchen-IsLogged tenant_id order_item_id = refl

delivery_logs_lead_example : IsLogged (
    serve_service the_waiter
      (λ n. 1000 + n)
      (λ n. 100 + n)
      kitchen
      (bulk_mark_delivered_request tray))
delivery_logs_lead_example = delivery_logs_lead kitchen-IsLogged (
    service_next the_waiter (λ n. 1000 + n) (λ n. 100 + n) (bulk_mark_delivered_request tray)
      service_here)
