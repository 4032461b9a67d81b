-- ===== src/Settlement/Balance/Covered.antt =====
-- The invariant, and that the writes of each request keep it.
use io_tables.Common.{
  ℕ, suc, ◌-◌, ◌≤◌, ◌≡◌, refl, Bool, Option, some, List, [], ◌∷◌, pos_part, sum, update, strip,
  String, arith, find-update, Option-cases, inl, inr, sum-insert, ◌==◌, ◌&&◌,
}
use io_tables.Database.{Db, Check, PaymentRow, closed}
use io_tables.Session.{Session}
use io_tables.Settlement.Billing.{is_paid_on, paid_minor, total_minor, close_writes}
use io_tables.Settlement.Payments.{
  check_row, RecordPayment, new_payment, VoidPayment, is_voidable, void_row,
}
use io_tables.Settlement.Payments.RecordLaws.{recorded_db}
use io_tables.Settlement.Payments.VoidLaws.{voided_db}

-- What is recorded on a check is at most the bill of its session.
abbrev pub IsCovered : Db → Type 0
IsCovered db =
    (tenant_id check_id : ℕ) (c : Check)
    → check_row tenant_id check_id db ≡ some c
    → paid_minor tenant_id check_id db ≤ total_minor tenant_id c.table_session_id db

-- A payment within the remaining balance keeps it.
pub IsCovered-recorded :
    (tenant_id user_id : ℕ) (r : RecordPayment) (check : Check) (s : Session)
    → check_row tenant_id r.check_id s.db ≡ some check
    → pos_part r.amount_minor
      ≤ total_minor tenant_id check.table_session_id s.db - paid_minor tenant_id r.check_id s.db
    → IsCovered s.db
    → IsCovered (recorded_db tenant_id user_id r s)
unfolding check_row paid_minor total_minor
IsCovered-recorded tenant_id user_id r check s at_check within inv t k c e = ground (
  arith,
  inv t k c e,
  inv tenant_id r.check_id check at_check,
  sum-insert (is_paid_on t k) (λ p. p.amount_minor)
      (new_payment tenant_id user_id r (s.clock s.read) (s.uuids (suc s.drawn))) s.db.payments,
)

-- A void only takes payments out of the sum.
paid-void-le :
    (t k tenant_id payment_id user_id : ℕ) (reason : String) (now : ℕ) (ps : List PaymentRow)
    → sum
        (is_paid_on t k)
        (λ p. p.amount_minor)
        (update (is_voidable tenant_id payment_id) (void_row user_id reason now) ps)
      ≤ sum (is_paid_on t k) (λ p. p.amount_minor) ps
paid-void-le t k tenant_id payment_id user_id reason now [] = omega arith
paid-void-le t k tenant_id payment_id user_id reason now (p ∷ ps) =
    ground (arith, paid-void-le t k tenant_id payment_id user_id reason now ps)

pub IsCovered-voided :
    (tenant_id user_id : ℕ) (r : VoidPayment) (p : PaymentRow) (s : Session)
    → IsCovered s.db
    → IsCovered (voided_db tenant_id user_id r p s)
unfolding check_row paid_minor total_minor
IsCovered-voided tenant_id user_id r p s inv t k c e = ground (
  arith,
  inv t k c e,
  paid-void-le t k tenant_id r.payment_id user_id (strip r.reason) (s.clock s.read) s.db.payments,
)

-- Closing changes no amount and no check's session.
pub IsCovered-closed :
    (tenant_id user_id check_id table_session_id : ℕ) (reason : Option String)
    (now closure_id event_id : ℕ) (db : Db)
    → IsCovered db
    → IsCovered
        (close_writes tenant_id user_id check_id table_session_id reason now closure_id event_id db)
unfolding check_row paid_minor total_minor
IsCovered-closed tenant_id user_id check_id table_session_id reason now closure_id event_id db inv t
      k c e =
    let same : Check → Bool = λ c. (c.tenant_id == t) && (c.id == k) in
    let hit : Check → Bool = λ c. (c.tenant_id == tenant_id) && (c.id == check_id) in
    let close : Check → Check = λ c. record c { status = closed; closed_at = some now } in
    elim (Option-cases (check_row t k db)) [
      | inl missing ↦ ground (arith, find-update same hit close (λ x. refl) db.checks)
      | inr (old, there) ↦
          ground (arith, find-update same hit close (λ x. refl) db.checks, inv t k old there)
    ]
