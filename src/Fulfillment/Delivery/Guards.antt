-- ===== src/Fulfillment/Delivery/Guards.antt =====
-- The guards of modules/fulfillment/service_delivery.py that read the database, as rules.
use io_tables.Common.{ℕ, Bool, false}
use io_tables.Actor.{ActorContext}
use io_tables.Session.{◌>>=◌, Exec, Session}
use io_tables.Session.Ends.{Ends, ends_rules}
use io_tables.Fulfillment.Delivery.Queries.{require_service_staff_context, ensure_hall_scope}

module _ {ℓ} {B : Type ℓ} {P : Bool → Session → Type 0} (actor : ActorContext)
    (f : Unit {0} → Exec B) (s : Session) (fails : P false s) (rest : Ends P (f tt s)) where
  pub Ends-ensure_hall_scope : (hall_id : ℕ) → Ends P ((ensure_hall_scope actor hall_id >>= f) s)
  unfolding ensure_hall_scope
  Ends-ensure_hall_scope hall_id = search ends_rules depth 20

  pub Ends-require_service_staff_context : Ends P ((require_service_staff_context actor >>= f) s)
  unfolding require_service_staff_context
  Ends-require_service_staff_context = search ends_rules depth 20
