-- ===== src/Fulfillment/Delivery/Accept.antt =====
-- How a single delivery is decided.
use io_tables.Common.{
  ℕ, suc, ◌≡◌, true, false, none, some, find, [], ◌∷◌, arith, is_none, if◌then◌else◌, find-append,
  Bool-cases, inl, inr,
}
use io_tables.Actor.{ActorContext, has_role, service_staff}
use io_tables.Errors.{invalid_delivery_transition}
use io_tables.Database.{DeliveryState, DeliveryStatus, delivered, same_delivery}
use io_tables.Session.{◌>>=◌, case_option, Session, ok, err}
use io_tables.Fulfillment.Delivery.Queries.{
  ServiceItem, to_delivery_state_result, is_tracked, is_assigned, is_state, load_ready_item,
  load_delivery_state, require_service_staff_context, ensure_hall_scope,
}
use io_tables.Fulfillment.Delivery.Transition.{
  new_state, applied, create_state, delivery_writes, apply_delivery_transition, make_transition,
  transition_from, delivery_transition,
}
use io_tables.Fulfillment.Delivery.Laws.{written_db}
use io_tables.Fulfillment.Delivery.Steps.{load_ready_item_sound}

-- The session behind the first step of an item: everything is committed.
abbrev pub first_step : ℕ → ℕ → ℕ → DeliveryStatus → Session → Session
first_step tenant_id user_id order_item_id to_status s = record {
  db = written_db tenant_id user_id order_item_id none to_status (s.clock s.read) s;
  committed = written_db tenant_id user_id order_item_id none to_status (s.clock s.read) s;
  uuids = s.uuids;
  drawn = suc (suc s.drawn);
  clock = s.clock;
  read = suc s.read;
}

module _ (actor : ActorContext) (tenant_id user_id order_item_id : ℕ) (item : ServiceItem)
    (to_status : DeliveryStatus) (s : Session) (role : has_role service_staff actor ≡ true)
    (at_tenant : actor.tenant_id ≡ some tenant_id) (at_user : actor.user_id ≡ some user_id)
    (tracked : is_tracked tenant_id s.db ≡ true)
    (found : load_ready_item tenant_id order_item_id s.db ≡ some item)
    (assigned : is_none
        (find (is_assigned tenant_id user_id item.table.hall_id) s.db.staff_hall_assignments)
      ≡ false) where
  -- An item that is already delivered.
  pub delivered-answers :
      (d : DeliveryState)
      → load_delivery_state tenant_id order_item_id s.db ≡ some d
      → same_delivery d.status delivered ≡ true
      → delivery_transition actor order_item_id to_status s ≡ (
          if same_delivery to_status delivered
          then (ok (to_delivery_state_result item d), s)
          else (err invalid_delivery_transition, s))
  unfolding delivery_transition require_service_staff_context ensure_hall_scope transition_from
      case_option ◌>>=◌
  delivered-answers d at_state final = elim (Bool-cases (same_delivery to_status delivered)) [
    | inl deliver ↦
        simp (role, at_tenant, at_user, tracked, found, assigned, at_state, final, deliver)
    | inr pick_up ↦
        simp (role, at_tenant, at_user, tracked, found, assigned, at_state, final, pick_up)
  ]

  pub new_state-found :
      load_delivery_state tenant_id order_item_id s.db ≡ none
      → load_delivery_state tenant_id order_item_id
          (written_db tenant_id user_id order_item_id none to_status (s.clock s.read) s)
        ≡ some
            (new_state tenant_id user_id order_item_id to_status (s.clock s.read) (s.uuids s.drawn))
  unfolding load_delivery_state
  new_state-found untouched = ground (
    arith,
    find-append (is_state tenant_id order_item_id) s.db.delivery_states (
        new_state tenant_id user_id order_item_id to_status (s.clock s.read) (s.uuids s.drawn)
        ∷ []),
  )

  -- At a tenant that tracks service delivery, service staff assigned to the item's hall who mark a
  -- ready item that has no delivery state yet, as picked up or as delivered, are told that state, and
  -- the state and its transition are committed.
  pub delivery_accepts :
      load_delivery_state tenant_id order_item_id s.db ≡ none
      → delivery_transition actor order_item_id to_status s ≡ (
        ok (applied item to_status (s.clock s.read)),
        first_step tenant_id user_id order_item_id to_status s,
      )
  unfolding delivery_transition require_service_staff_context ensure_hall_scope make_transition
      apply_delivery_transition delivery_writes create_state case_option ◌>>=◌
  delivery_accepts untouched = simp (
    role,
    at_tenant,
    at_user,
    tracked,
    found,
    assigned,
    untouched,
    load_ready_item_sound tenant_id order_item_id s.db item found,
    new_state-found untouched,
  )
