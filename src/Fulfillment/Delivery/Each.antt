-- ===== src/Fulfillment/Delivery/Each.antt =====
-- The loop of a bulk delivery.
use io_tables.Common.{
  ℕ, ◌≡◌, ◌∙◌, ap, refl, true, false, Option, none, some, List, [], ◌∷◌, arith, Option-cases, inl,
  inr, find-append, find-update, find_sound,
}
use io_tables.Actor.{ActorContext}
use io_tables.Database.{Db, DeliveryState, DeliveryStatus, picked_up, delivered, same_delivery}
use io_tables.Session.{Session}
use io_tables.Session.Ends.{Ends, Pending, Ends-query, Ends-raise_if, Ends-pure, Ends-Pending}
use io_tables.Fulfillment.Delivery.Queries.{ServiceItem, status_of, is_state, load_delivery_state}
use io_tables.Fulfillment.Delivery.Transition.{is_refused, new_state, is_state_at, advanced}
use io_tables.Fulfillment.Delivery.Bulk.{is_delivered, deliver_each}
use io_tables.Fulfillment.Delivery.Laws.{
  written_db, apply_delivery_transition-Pending, delivered-written,
}

pub same_delivery_refl : (status : DeliveryStatus) → same_delivery status status ≡ true
same_delivery_refl picked_up = refl
same_delivery_refl delivered = refl

-- A step to delivered delivers its item.
is_delivered-written :
    (t tenant_id user_id order_item_id : ℕ) (existing : Option DeliveryState) (now : ℕ)
    (s : Session)
    → t ≡ tenant_id
    → load_delivery_state tenant_id order_item_id s.db ≡ existing
    → is_delivered (
        load_delivery_state tenant_id order_item_id
          (written_db t user_id order_item_id existing delivered now s))
      ≡ true
unfolding load_delivery_state
is_delivered-written t tenant_id user_id order_item_id none now s same e = ground (
  arith,
  find-append (is_state tenant_id order_item_id) s.db.delivery_states
      (new_state t user_id order_item_id delivered now (s.uuids s.drawn) ∷ []),
)
is_delivered-written t tenant_id user_id order_item_id (some d) now s same e = ground (
  arith,
  same_delivery_refl d.status,
  find_sound (is_state tenant_id order_item_id) s.db.delivery_states d,
  find-update (is_state tenant_id order_item_id) (is_state_at t order_item_id d.status)
      (advanced user_id delivered now) (λ x. refl) s.db.delivery_states,
)

-- A step of any item leaves a delivered one delivered.
is_delivered_kept :
    (tenant_id user_id order_item_id : ℕ) (existing : Option DeliveryState) (now : ℕ) (s : Session)
    (t k : ℕ)
    → is_refused (status_of existing) delivered ≡ false
    → is_delivered (load_delivery_state t k s.db) ≡ true
    → is_delivered (
        load_delivery_state t k
          (written_db tenant_id user_id order_item_id existing delivered now s))
      ≡ true
is_delivered_kept tenant_id user_id order_item_id existing now s t k step done =
    elim (Option-cases (load_delivery_state t k s.db)) [
      | inl missing ↦ ground arith
      | inr (row, found) ↦ ground (
        arith,
        delivered-written tenant_id user_id order_item_id existing delivered now s t k row step,
      )
    ]

-- What no step to delivered takes away.
abbrev pub IsKept : (Db → Type 0) → Type 0
IsKept Q =
    (tenant_id user_id order_item_id : ℕ) (existing : Option DeliveryState) (now : ℕ) (s : Session)
    → load_delivery_state tenant_id order_item_id s.db ≡ existing
    → is_refused (status_of existing) delivered ≡ false
    → Q s.db
    → Q (written_db tenant_id user_id order_item_id existing delivered now s)

-- Each of the items has a delivered state.
abbrev pub AllDelivered : ℕ → List ServiceItem → Db → Type 0
AllDelivered tenant_id [] db = Unit
AllDelivered tenant_id (item ∷ items) db =
    (is_delivered (load_delivery_state tenant_id item.item.id db) ≡ true)
    × AllDelivered tenant_id items db

module _ (actor : ActorContext) (tenant_id : ℕ) (at_tenant : actor.tenant_id ≡ some tenant_id)
    (now : ℕ) where
  same_tenant : (t : ℕ) → actor.tenant_id ≡ some t → t ≡ tenant_id
  same_tenant t at_t = cc

  -- The loop keeps what no step takes away, delivers every item, and commits nothing.
  pub deliver_each-Pending :
      (Q : Db → Type 0)
      → IsKept Q
      → (items : List ServiceItem) (s : Session) (c : Db) → s.committed ≡ c
      → Q s.db
      → Ends
          (Pending (λ db. Q db × AllDelivered tenant_id items db) c)
          (deliver_each actor tenant_id now items s)
  unfolding deliver_each
  deliver_each-Pending Q keeps [] s c e q = Ends-pure _ s (e, (q, tt))
  deliver_each-Pending Q keeps (item ∷ items) s c e q =
      let Next : Db → Type 0 =
        λ db. Q db × (is_delivered (load_delivery_state tenant_id item.item.id db) ≡ true) in
      Ends-query _ s _ (
        Ends-raise_if _ _ s _ e (λ not_yet.
          Ends-Pending Next s.committed _ _ s
            (apply_delivery_transition-Pending Next actor item
              (load_delivery_state tenant_id item.item.id s.db) delivered now s
              (λ t u at_t step. (
                keeps t u item.item.id _ now s
                    (ap (λ t. load_delivery_state t item.item.id s.db) (same_tenant t at_t)) step q,
                is_delivered-written t tenant_id u item.item.id _ now s (same_tenant t at_t) refl,
              )))
            (λ s' h. h ∙ e)
            (λ done s' h n.
              Ends-Pending (λ db. Next db × AllDelivered tenant_id items db) c _ _ s'
                (deliver_each-Pending Next
                  (λ t u i o n s'' at_state step next. (
                    keeps t u i o n s'' at_state step next.0,
                    is_delivered_kept t u i o n s'' tenant_id item.item.id step next.1,
                  ))
                  items s' c (h ∙ e) n)
                (λ s'' h'. h') (λ rest s'' h' n'. Ends-pure _ s'' (h', (n'.0.0, (n'.0.1, n'.1)))))))
