-- ===== src/Settlement/Balance/Requests.antt =====
-- The requests of the cashier app on bills and payments, and what any run of them leaves behind.
use io_tables.Common.{
  ℕ, suc, ◌-◌, ◌≤◌, ◌≡◌, Bool, true, false, Option, some, String, ltb, pos_part, arith,
}
use io_tables.Actor.{ActorContext}
use io_tables.Database.{Db, Check, PaymentRow, PaymentIdempotency, PaymentVoidIdempotency}
use io_tables.Session.{◌>>=◌, ◌>>◌, Session, begin}
use io_tables.Session.Ends.{Ends, Always, ends_rules}
use io_tables.Settlement.Billing.{
  total_minor, paid_minor, close_writes, bill_summary_for_check, close_open_session, close_session,
}
use io_tables.Settlement.Payments.{
  check_row, RecordPayment, VoidPayment, record_writes, record_new, replay_payment, record_payment,
  payment_result, void_writes, void_new, replay_void, void_payment, payment_void_result,
}
use io_tables.Settlement.Payments.RecordLaws.{recorded_db, recorded_session, record_writes_lem}
use io_tables.Settlement.Payments.VoidLaws.{voided_db, voided_session, void_writes_lem}
use io_tables.Settlement.Balance.Covered.{
  IsCovered, IsCovered-recorded, IsCovered-voided, IsCovered-closed,
}

-- A request of the cashier app that writes to the settlement tables.
pub data CashierRequest : Type 0 where
  record_payment_request : RecordPayment → CashierRequest
  void_payment_request : VoidPayment → CashierRequest
  close_session_request : ℕ → Option String → CashierRequest

-- What is committed once the request is answered. The session is thrown away, with any writes that
-- it has not committed.
unfoldable pub serve : ActorContext → (ℕ → ℕ) → (ℕ → ℕ) → Db → CashierRequest → Db
serve actor uuids clock db (record_payment_request r) =
    (record_payment actor r (begin db uuids clock)).1.committed
serve actor uuids clock db (void_payment_request r) =
    (void_payment actor r (begin db uuids clock)).1.committed
serve actor uuids clock db (close_session_request table_session_id reason) =
    (close_session actor table_session_id reason (begin db uuids clock)).1.committed

module _ {P : Bool → Session → Type 0} where
  payment_result-Ends :
      (actor : ActorContext) (payment_id : ℕ) (duplicate : Bool) (s : Session)
      → P true s
      → P false s
      → Ends P (payment_result actor payment_id duplicate s)
  unfolding payment_result
  payment_result-Ends actor payment_id duplicate s yes_ok no_ok = search ends_rules depth 20

  payment_void_result-Ends :
      (actor : ActorContext) (payment_id : ℕ) (duplicate : Bool) (s : Session)
      → P true s
      → P false s
      → Ends P (payment_void_result actor payment_id duplicate s)
  unfolding payment_void_result
  payment_void_result-Ends actor payment_id duplicate s yes_ok no_ok = search ends_rules depth 20

-- What the writes of each request keep, every request keeps.
module _ (Kept : Db → Type 0)
    (kept_recorded : (tenant_id user_id : ℕ) (r : RecordPayment) (check : Check) (s : Session)
      → check_row tenant_id r.check_id s.db ≡ some check
      → pos_part r.amount_minor
        ≤ total_minor tenant_id check.table_session_id s.db - paid_minor tenant_id r.check_id s.db
      → Kept s.db
      → Kept (recorded_db tenant_id user_id r s))
    (kept_voided : (tenant_id user_id : ℕ) (r : VoidPayment) (p : PaymentRow) (s : Session)
      → Kept s.db
      → Kept (voided_db tenant_id user_id r p s))
    (kept_closed : (tenant_id user_id check_id table_session_id : ℕ) (reason : Option String)
        (now closure_id event_id : ℕ) (db : Db)
      → Kept db
      → Kept (
          close_writes tenant_id user_id check_id table_session_id reason now closure_id event_id
            db)) where
  -- The session has written nothing yet.
  module _ (actor : ActorContext) (s : Session) (seen : Kept s.db) (inv : Kept s.committed) where
    record_writes-Kept :
        (tenant_id user_id : ℕ) (r : RecordPayment) (check : Check)
        → check_row tenant_id r.check_id s.db ≡ some check
        → ltb
            (bill_summary_for_check tenant_id r.check_id check.table_session_id
              s.db).remaining_minor
            (pos_part r.amount_minor)
          ≡ false
        → Ends (Always Kept) (
            (record_writes tenant_id user_id r >>= λ payment_id.
            payment_result actor payment_id false)
              s)
    unfolding bill_summary_for_check ◌>>=◌
    record_writes-Kept tenant_id user_id r check at_check within =
        let kept = kept_recorded tenant_id user_id r check s at_check (ground arith) seen in
        rw (record_writes_lem tenant_id user_id r s) (
          payment_result-Ends actor (s.uuids (suc s.drawn)) false
            (recorded_session tenant_id user_id r s) kept kept)

    record_new-Kept :
        (tenant_id user_id : ℕ) (r : RecordPayment) (check : Check)
        → check_row tenant_id r.check_id s.db ≡ some check
        → Ends (Always Kept) (record_new actor tenant_id user_id r check s)
    unfolding record_new
    record_new-Kept tenant_id user_id r check at_check =
        search (ends_rules, record_writes-Kept tenant_id user_id r check) depth 20

    replay_payment-Kept :
        (r : RecordPayment) (k : PaymentIdempotency)
        → Ends (Always Kept) (replay_payment actor r k s)
    unfolding replay_payment
    replay_payment-Kept r k = search (ends_rules, payment_result-Ends) depth 20

    record_payment-Kept : (r : RecordPayment) → Ends (Always Kept) (record_payment actor r s)
    unfolding record_payment
    record_payment-Kept r = search (ends_rules, record_new-Kept, replay_payment-Kept) depth 30

    void_writes-Kept :
        (tenant_id user_id : ℕ) (r : VoidPayment) (p : PaymentRow)
        → Ends
            (Always Kept)
            ((void_writes tenant_id user_id r p >> payment_void_result actor r.payment_id false) s)
    unfolding ◌>>=◌
    void_writes-Kept tenant_id user_id r p =
        let kept = kept_voided tenant_id user_id r p s seen in
        rw (void_writes_lem tenant_id user_id r p s) (
          payment_void_result-Ends actor r.payment_id false (voided_session tenant_id user_id r p s)
            kept kept)

    void_new-Kept :
        (tenant_id user_id : ℕ) (r : VoidPayment) (p : PaymentRow)
        → Ends (Always Kept) (void_new actor tenant_id user_id r p s)
    unfolding void_new
    void_new-Kept tenant_id user_id r p = search (ends_rules, void_writes-Kept) depth 20

    replay_void-Kept :
        (r : VoidPayment) (k : PaymentVoidIdempotency)
        → Ends (Always Kept) (replay_void actor r k s)
    unfolding replay_void
    replay_void-Kept r k = search (ends_rules, payment_void_result-Ends) depth 20

    void_payment-Kept : (r : VoidPayment) → Ends (Always Kept) (void_payment actor r s)
    unfolding void_payment
    void_payment-Kept r = search (ends_rules, void_new-Kept, replay_void-Kept) depth 30

    close_open_session-Kept :
        (tenant_id user_id check_id table_session_id : ℕ) (reason : Option String)
        → Ends
            (Always Kept)
            (close_open_session tenant_id user_id check_id table_session_id reason s)
    unfolding close_open_session ◌>>=◌
    close_open_session-Kept tenant_id user_id check_id table_session_id reason = record {
      at =
          kept_closed tenant_id user_id check_id table_session_id reason (s.clock s.read)
            (s.uuids s.drawn) (s.uuids (suc s.drawn)) s.db seen;
    }

    close_session-Kept :
        (table_session_id : ℕ) (reason : Option String)
        → Ends (Always Kept) (close_session actor table_session_id reason s)
    unfolding close_session
    close_session-Kept table_session_id reason =
        search (ends_rules, close_open_session-Kept) depth 30

  -- One request, whatever it asks and however it ends.
  pub serve-Kept :
      (actor : ActorContext) (uuids clock : ℕ → ℕ) (db : Db) (request : CashierRequest)
      → Kept db
      → Kept (serve actor uuids clock db request)
  unfolding serve
  serve-Kept actor uuids clock db (record_payment_request r) inv =
      (record_payment-Kept actor (begin db uuids clock) inv inv r).at
  serve-Kept actor uuids clock db (void_payment_request r) inv =
      (void_payment-Kept actor (begin db uuids clock) inv inv r).at
  serve-Kept actor uuids clock db (close_session_request table_session_id reason) inv =
      (close_session-Kept actor (begin db uuids clock) inv inv table_session_id reason).at

-- The databases that requests of any cashiers, one after the other, can lead to.
pub data Reaches (db : Db) : Db → Type 0 where
  here : Reaches db db
  next :
      {db' : Db} (actor : ActorContext) (uuids clock : ℕ → ℕ) (request : CashierRequest)
      → Reaches db db'
      → Reaches db (serve actor uuids clock db' request)

module _ (Kept : Db → Type 0)
    (kept_recorded : (tenant_id user_id : ℕ) (r : RecordPayment) (check : Check) (s : Session)
      → check_row tenant_id r.check_id s.db ≡ some check
      → pos_part r.amount_minor
        ≤ total_minor tenant_id check.table_session_id s.db - paid_minor tenant_id r.check_id s.db
      → Kept s.db
      → Kept (recorded_db tenant_id user_id r s))
    (kept_voided : (tenant_id user_id : ℕ) (r : VoidPayment) (p : PaymentRow) (s : Session)
      → Kept s.db
      → Kept (voided_db tenant_id user_id r p s))
    (kept_closed : (tenant_id user_id check_id table_session_id : ℕ) (reason : Option String)
        (now closure_id event_id : ℕ) (db : Db)
      → Kept db
      → Kept (
          close_writes tenant_id user_id check_id table_session_id reason now closure_id event_id
            db)) where
  pub Reaches-Kept : {db db' : Db} → Kept db → Reaches db db' → Kept db'
  Reaches-Kept inv here = inv
  Reaches-Kept inv (next actor uuids clock request reached) =
      serve-Kept Kept kept_recorded kept_voided kept_closed actor uuids clock _ request
        (Reaches-Kept inv reached)

-- From a database whose checks are covered, no sequence of requests by any actors pays a check
-- beyond its bill: what is recorded on a check never exceeds the total of its session.
pub never_overpaid : {db db' : Db} → IsCovered db → Reaches db db' → IsCovered db'
never_overpaid inv reached =
    Reaches-Kept IsCovered IsCovered-recorded IsCovered-voided IsCovered-closed inv reached
