-- ===== src/Fulfillment/Delivery/BulkSteps.antt =====
-- A bulk delivery, as it ends: all of its items are delivered, or nothing happened.
use io_tables.Common.{
  ℕ, ◌≡◌, ◌∙◌, ap, refl, Bool, true, false, none, some, List, [], ◌∷◌, find, arith,
}
use io_tables.Actor.{ActorContext}
use io_tables.Errors.{ApiError}
use io_tables.Database.{Db, DeliveryState, delivered, same_delivery}
use io_tables.Session.{Session, Result, ok, err}
use io_tables.Session.Ends.{
  Ends, Untouched, Always, Ends-Pending, Ends-Untouched, Ends-weaken, Ends-execute, Ends-commit,
  Ends-pure, Ends-utc_now, Ends-uuid4, Ends-query, Ends-raise_if, Ends-or_raise, Ends-or_raise_is,
  Ends-case_option, ends_rules,
}
use io_tables.Fulfillment.Delivery.Queries.{
  ServiceItem, is_state, load_delivery_state, require_service_staff_context, load_bulk_ready_items,
  service_items,
}
use io_tables.Fulfillment.Delivery.Bulk.{
  BulkDelivery, BulkDeliveryResult, load_bulk_idempotency, deliver_rows, deliver_new, replay_bulk,
  bulk_mark_delivered,
}
use io_tables.Fulfillment.Delivery.Guards.{
  Ends-ensure_hall_scope, Ends-require_service_staff_context,
}
use io_tables.Fulfillment.Delivery.Laws.{delivered-written}
use io_tables.Fulfillment.Delivery.Each.{AllDelivered, IsKept, deliver_each-Pending}

AllDelivered-same :
    (tenant_id : ℕ) (items : List ServiceItem) (db db' : Db)
    → db'.delivery_states ≡ db.delivery_states
    → AllDelivered tenant_id items db
    → AllDelivered tenant_id items db'
unfolding load_delivery_state
AllDelivered-same tenant_id [] db db' same h = tt
AllDelivered-same tenant_id (item ∷ items) db db' same h =
    (ground (arith, h.0), AllDelivered-same tenant_id items db db' same h.1)

-- What the loop leaves in the open transaction is committed behind it.
pub deliver_rows-Ends :
    {P : Bool → Session → Type 0} (Q : Db → Type 0)
    → IsKept Q
    → ((db db' : Db)
        → db'.delivery_states ≡ db.delivery_states
        → db'.delivery_transitions ≡ db.delivery_transitions
        → Q db
        → Q db')
    → (actor : ActorContext) (tenant_id user_id : ℕ) (r : BulkDelivery) (now : ℕ)
      (items : List ServiceItem) (s : Session)
    → actor.tenant_id ≡ some tenant_id
    → Q s.db
    → ((s' : Session) → s'.committed ≡ s.committed → P false s')
    → ((s' : Session) → Q s'.committed → AllDelivered tenant_id items s'.committed → P true s')
    → Ends P (deliver_rows actor tenant_id user_id r now items s)
unfolding deliver_rows
deliver_rows-Ends Q keeps only_tables actor tenant_id user_id r now items s at_tenant q fails
      returns =
    Ends-Pending (λ db. Q db × AllDelivered tenant_id items db) s.committed _ _ s
      (deliver_each-Pending actor tenant_id at_tenant now Q keeps items s s.committed refl q) fails
      (λ done s' same h. Ends-execute _ s' _ (
        Ends-commit _ _ (
          Ends-pure _ _ (
            returns _ (only_tables s'.db _ refl refl h.0)
              (AllDelivered-same tenant_id items s'.db _ refl h.1)))))

abbrev Anything : Db → Type 0
Anything db = Unit

-- A call that raised has left what was committed, and one that returned has delivered the items.
abbrev Fulfilled : ℕ → List ServiceItem → Db → Bool → Session → Type 0
Fulfilled tenant_id items c true s = AllDelivered tenant_id items s.committed
Fulfilled tenant_id items c false s = s.committed ≡ c

module _ (actor : ActorContext) (tenant_id user_id : ℕ) (r : BulkDelivery)
    (at_tenant : actor.tenant_id ≡ some tenant_id) where
  deliver_rows-Fulfilled :
      (now : ℕ) (items : List ServiceItem) (s : Session)
      → Ends
          (Fulfilled tenant_id items s.committed)
          (deliver_rows actor tenant_id user_id r now items s)
  deliver_rows-Fulfilled now items s =
      deliver_rows-Ends Anything
        (λ tenant_id user_id order_item_id existing now s at_state step h. tt)
        (λ db db' same log h. tt) actor tenant_id user_id r now items s at_tenant tt
        (λ s' same. same) (λ s' q all. all)

  deliver_new-Fulfilled :
      (s : Session)
      → Ends
          (Fulfilled tenant_id (load_bulk_ready_items tenant_id r.order_item_ids s.db) s.committed)
          (deliver_new actor tenant_id user_id r s)
  unfolding deliver_new load_bulk_ready_items service_items
  deliver_new-Fulfilled s =
      let rows = load_bulk_ready_items tenant_id r.order_item_ids s.db in
      Ends-utc_now s _ (
        Ends-uuid4 _ _ (
          Ends-execute _ _ _ (
            Ends-query _ _ _ (
              Ends-raise_if _ _ _ _ refl (λ all_there. Ends-raise_if _ _ _ _ refl (λ one_table.
                Ends-or_raise _ _ _ _ refl (λ first at.
                  Ends-ensure_hall_scope _ _ _ refl (deliver_rows-Fulfilled (s.clock s.read) rows _)
                    _)))))))

deliver_new-Untouched :
    (actor : ActorContext) (tenant_id user_id : ℕ) (r : BulkDelivery) (s : Session)
    → actor.tenant_id ≡ some tenant_id
    → Ends (Untouched s.committed) (deliver_new actor tenant_id user_id r s)
deliver_new-Untouched actor tenant_id user_id r s at_tenant =
    Ends-weaken (deliver_new actor tenant_id user_id r s)
      (deliver_new-Fulfilled actor tenant_id user_id r at_tenant s) (λ s' h. h) (λ s' h. tt)

bulk_mark_delivered-Untouched :
    (actor : ActorContext) (r : BulkDelivery) (s : Session)
    → Ends (Untouched s.committed) (bulk_mark_delivered actor r s)
unfolding bulk_mark_delivered require_service_staff_context replay_bulk
bulk_mark_delivered-Untouched actor r s = search (ends_rules, deliver_new-Untouched) depth 40

-- A bulk delivery that is refused, also halfway through its items, leaves what is committed alone:
-- no item of it is delivered and its key is not used up.
pub bulk_mark_delivered_refused :
    (actor : ActorContext) (r : BulkDelivery) (s : Session) {e : ApiError}
    → (bulk_mark_delivered actor r s).0 ≡ err e
    → (bulk_mark_delivered actor r s).1.committed ≡ s.committed
bulk_mark_delivered_refused actor r s =
    Ends-Untouched (bulk_mark_delivered actor r s) (bulk_mark_delivered-Untouched actor r s)

rows_of_ok :
    (tenant_id : ℕ) (items : List ServiceItem) (c : Db) (o : Result BulkDeliveryResult × Session)
    (answer : BulkDeliveryResult)
    → Ends (Fulfilled tenant_id items c) o
    → o.0 ≡ ok answer
    → AllDelivered tenant_id items o.1.committed
rows_of_ok tenant_id items c (ok a, s) answer h e = h.at
rows_of_ok tenant_id items c (err x, s) answer h e = cc

module _ (actor : ActorContext) (tenant_id user_id : ℕ) (r : BulkDelivery) (s : Session)
    (at_tenant : actor.tenant_id ≡ some tenant_id) (at_user : actor.user_id ≡ some user_id)
    (new : load_bulk_idempotency tenant_id user_id r.idempotency_key s.db ≡ none) where
  bulk_mark_delivered-Fulfilled :
      Ends
        (Fulfilled tenant_id (load_bulk_ready_items tenant_id r.order_item_ids s.db) s.committed)
        (bulk_mark_delivered actor r s)
  unfolding bulk_mark_delivered
  bulk_mark_delivered-Fulfilled = Ends-require_service_staff_context _ _ _ refl (
      Ends-or_raise_is _ tenant_id _ _ _ at_tenant (
        Ends-or_raise_is _ user_id _ _ _ at_user (
          Ends-raise_if _ _ _ _ refl (λ key_given. Ends-raise_if _ _ _ _ refl (λ good_ids.
            Ends-query _ _ _ (
              Ends-case_option _ _ _ _
                (λ none. deliver_new-Fulfilled actor tenant_id user_id r at_tenant s)
                (λ k used. cc)))))))

  -- A bulk delivery under a new key that is accepted leaves a delivered state committed for every
  -- ready item that it asked for.
  pub bulk_mark_delivered_delivers :
      (answer : BulkDeliveryResult)
      → (bulk_mark_delivered actor r s).0 ≡ ok answer
      → AllDelivered tenant_id
          (load_bulk_ready_items tenant_id r.order_item_ids s.db)
          (bulk_mark_delivered actor r s).1.committed
  bulk_mark_delivered_delivers answer =
      rows_of_ok tenant_id (load_bulk_ready_items tenant_id r.order_item_ids s.db) s.committed
        (bulk_mark_delivered actor r s) answer bulk_mark_delivered-Fulfilled

-- A delivered state, where the session has written nothing yet.
module _ (actor : ActorContext) (s : Session) (t k : ℕ) (row : DeliveryState)
    (final : same_delivery row.status delivered ≡ true)
    (seen : load_delivery_state t k s.db ≡ some row)
    (inv : load_delivery_state t k s.committed ≡ some row) where
  deliver_new-stays :
      (tenant_id user_id : ℕ) (r : BulkDelivery)
      → actor.tenant_id ≡ some tenant_id
      → Ends
          (Always (λ db. load_delivery_state t k db ≡ some row))
          (deliver_new actor tenant_id user_id r s)
  unfolding deliver_new load_delivery_state
  deliver_new-stays tenant_id user_id r at_tenant = Ends-utc_now s _ (
      Ends-uuid4 _ _ (
        Ends-execute _ _ _ (
          Ends-query _ _ _ (
            Ends-raise_if _ _ _ _ inv (λ all_there. Ends-raise_if _ _ _ _ inv (λ one_table.
              Ends-or_raise _ _ _ _ inv (λ first at.
                Ends-ensure_hall_scope _ _ _ inv
                  (deliver_rows-Ends (λ db. load_delivery_state t k db ≡ some row)
                    (λ tenant user i existing now s' at_state step h.
                      delivered-written tenant user i existing delivered now s' t k row step final
                        h)
                    (λ db db' same log h. ap (λ states. find (is_state t k) states) same ∙ h) actor
                    tenant_id user_id r (s.clock s.read) _ _ at_tenant seen
                    (λ s' same. ap (λ db. load_delivery_state t k db) same ∙ inv)
                    (λ s' kept all. kept))
                  _)))))))

  pub bulk_mark_delivered-stays :
      (r : BulkDelivery)
      → Ends (Always (λ db. load_delivery_state t k db ≡ some row)) (bulk_mark_delivered actor r s)
  unfolding bulk_mark_delivered require_service_staff_context replay_bulk
  bulk_mark_delivered-stays r = search (ends_rules, deliver_new-stays) depth 40
