-- ===== src/Fulfillment/Delivery/Steps.antt =====
-- A single delivery, as it ends.
use io_tables.Common.{
  ℕ, ◌≡◌, ◌∙◌, ap, refl, true, false, ◌&&◌, Option, none, some, [], ◌∷◌, arith, ◌==◌, is_none,
  find-append, find-update, find_sound,
}
use io_tables.Actor.{ActorContext}
use io_tables.Errors.{ApiError}
use io_tables.Database.{Db, DeliveryState, DeliveryStatus, delivered, same_delivery}
use io_tables.Session.{Session, err}
use io_tables.Session.Ends.{
  Ends, Untouched, Always, Ends-Pending, Ends-pure, Ends-query, Ends-raise_if, Ends-utc_now,
  Ends-commit, Ends-or_raise_found, Ends-Untouched, ends_rules,
}
use io_tables.Fulfillment.Delivery.Queries.{
  ServiceItem, is_ready_item, service_items, is_state, load_delivery_state, load_ready_item,
  require_service_staff_context, ensure_hall_scope,
}
use io_tables.Fulfillment.Delivery.Transition.{
  new_state, is_state_at, advanced, make_transition, transition_from, delivery_transition,
}
use io_tables.Fulfillment.Delivery.Laws.{
  written_db, apply_delivery_transition-Pending, delivered-written,
}

-- Behind a step its item has a state.
is_state-written :
    (t tenant_id user_id i order_item_id : ℕ) (existing : Option DeliveryState)
    (to_status : DeliveryStatus) (now : ℕ) (s : Session)
    → t ≡ tenant_id
    → i ≡ order_item_id
    → load_delivery_state tenant_id order_item_id s.db ≡ existing
    → is_none (
        load_delivery_state tenant_id order_item_id
          (written_db t user_id i existing to_status now s))
      ≡ false
unfolding load_delivery_state
is_state-written t tenant_id user_id i order_item_id none to_status now s same item e = ground (
  arith,
  find-append (is_state tenant_id order_item_id) s.db.delivery_states
      (new_state t user_id i to_status now (s.uuids s.drawn) ∷ []),
)
is_state-written t tenant_id user_id i order_item_id (some d) to_status now s same item e = ground (
  arith,
  find-update (is_state tenant_id order_item_id) (is_state_at t i d.status)
      (advanced user_id to_status now) (λ x. refl) s.db.delivery_states,
)

-- A ready item that is found is the one that was asked for.
pub load_ready_item_sound :
    (tenant_id order_item_id : ℕ) (db : Db) (item : ServiceItem)
    → load_ready_item tenant_id order_item_id db ≡ some item
    → item.item.id ≡ order_item_id
unfolding load_ready_item
load_ready_item_sound tenant_id order_item_id db item found = ground (
  arith,
  find_sound (λ r. is_ready_item tenant_id r && (r.item.id == order_item_id)) (service_items db)
      item,
)

module _ (actor : ActorContext) (tenant_id : ℕ) (at_tenant : actor.tenant_id ≡ some tenant_id) where
  same_tenant : (t : ℕ) → actor.tenant_id ≡ some t → t ≡ tenant_id
  same_tenant t at_t = cc

  make_transition-Untouched :
      (order_item_id : ℕ) (item : ServiceItem) (existing : Option DeliveryState)
      (to_status : DeliveryStatus) (s : Session)
      → item.item.id ≡ order_item_id
      → load_delivery_state tenant_id order_item_id s.db ≡ existing
      → Ends
          (Untouched s.committed)
          (make_transition actor tenant_id order_item_id to_status item existing s)
  unfolding make_transition
  make_transition-Untouched order_item_id item existing to_status s same e =
      let Found : Db → Type 0 =
        λ db. is_none (load_delivery_state tenant_id order_item_id db) ≡ false in
      Ends-utc_now s _ (
        Ends-raise_if _ _ _ _ refl (λ step.
          Ends-Pending Found s.committed _ _ _
            (apply_delivery_transition-Pending Found actor item existing to_status (s.clock s.read)
              _
              (λ t u at_t step.
                is_state-written t tenant_id u item.item.id order_item_id existing to_status
                  (s.clock s.read) _ (same_tenant t at_t) same e))
            (λ s' h. h)
            (λ done s' h there. Ends-commit s' _ (
              Ends-query _ _ _
                (Ends-or_raise_found _ _ _ _ there (λ found at. Ends-pure _ _ tt))))))

delivery_transition-Untouched :
    (actor : ActorContext) (order_item_id : ℕ) (to_status : DeliveryStatus) (s : Session)
    → Ends (Untouched s.committed) (delivery_transition actor order_item_id to_status s)
unfolding delivery_transition require_service_staff_context ensure_hall_scope transition_from
delivery_transition-Untouched actor order_item_id to_status s =
    search (ends_rules, make_transition-Untouched, load_ready_item_sound) depth 40

-- A single delivery that is refused leaves what is committed alone.
pub delivery_transition_refused :
    (actor : ActorContext) (order_item_id : ℕ) (to_status : DeliveryStatus) (s : Session)
    {e : ApiError}
    → (delivery_transition actor order_item_id to_status s).0 ≡ err e
    → (delivery_transition actor order_item_id to_status s).1.committed ≡ s.committed
delivery_transition_refused actor order_item_id to_status s =
    Ends-Untouched (delivery_transition actor order_item_id to_status s)
      (delivery_transition-Untouched actor order_item_id to_status s)

-- A delivered state, where the session has written nothing yet.
module _ (actor : ActorContext) (s : Session) (t k : ℕ) (row : DeliveryState)
    (final : same_delivery row.status delivered ≡ true)
    (seen : load_delivery_state t k s.db ≡ some row)
    (inv : load_delivery_state t k s.committed ≡ some row) where
  make_transition-stays :
      (tenant_id order_item_id : ℕ) (to_status : DeliveryStatus) (item : ServiceItem)
      (existing : Option DeliveryState)
      → Ends
          (Always (λ db. load_delivery_state t k db ≡ some row))
          (make_transition actor tenant_id order_item_id to_status item existing s)
  unfolding make_transition
  make_transition-stays tenant_id order_item_id to_status item existing =
      let Stays : Db → Type 0 = λ db. load_delivery_state t k db ≡ some row in
      Ends-utc_now s _ (
        Ends-raise_if _ _ _ _ inv (λ step.
          Ends-Pending Stays s.committed _ _ _
            (apply_delivery_transition-Pending Stays actor item existing to_status (s.clock s.read)
              _
              (λ t' u at_t step.
                delivered-written t' u item.item.id existing to_status (s.clock s.read) _ t k row
                  step final seen))
            (λ s' h. ap (λ db. load_delivery_state t k db) h ∙ inv)
            (λ done s' h there. Ends-commit s' _ (search ends_rules depth 10))))

  transition_from-stays :
      (tenant_id order_item_id : ℕ) (to_status : DeliveryStatus) (item : ServiceItem)
      (d : DeliveryState)
      → Ends
          (Always (λ db. load_delivery_state t k db ≡ some row))
          (transition_from actor tenant_id order_item_id to_status item d s)
  unfolding transition_from
  transition_from-stays tenant_id order_item_id to_status item d =
      search (ends_rules, make_transition-stays) depth 20

  pub delivery_transition-stays :
      (order_item_id : ℕ) (to_status : DeliveryStatus)
      → Ends
          (Always (λ db. load_delivery_state t k db ≡ some row))
          (delivery_transition actor order_item_id to_status s)
  unfolding delivery_transition require_service_staff_context ensure_hall_scope
  delivery_transition-stays order_item_id to_status =
      search (ends_rules, make_transition-stays, transition_from-stays) depth 40
