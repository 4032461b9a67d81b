-- ===== src/Settlement/Balance/VoidedOnce.antt =====
-- A payment that was voided, under any run of the requests of the cashier app.
use io_tables.Common.{
  ℕ, suc, ◌≤◌, ◌≡◌, refl, true, false, none, some, [], ◌∷◌, find, count, strip, is_empty, is_none,
  arith, find-append, find-update, find_sound,
}
use io_tables.Actor.{ActorContext, has_role, cashier}
use io_tables.Database.{Db, Check, PaymentRow, voided, is_open, is_recorded}
use io_tables.Session.{Session}
use io_tables.Settlement.Payments.{
  RecordPayment, new_payment, VoidPayment, void_row, is_voidable, void_payment, payment_row,
  is_payment, void_idempotency_row, is_correction,
}
use io_tables.Settlement.Payments.RecordLaws.{recorded_db}
use io_tables.Settlement.Payments.VoidLaws.{voided_db}
use io_tables.Settlement.Payments.VoidAccept.{void_payment_accepts}
use io_tables.Settlement.Balance.Requests.{Reaches, Reaches-Kept}

-- The first payment with the id is this row.
abbrev IsRow : ℕ → ℕ → PaymentRow → Db → Type 0
IsRow tenant_id payment_id row db = find (is_payment tenant_id payment_id) db.payments ≡ some row

module _ (t k : ℕ) (row : PaymentRow) (dead : is_recorded row.status ≡ false) where
  IsRow-recorded :
      (tenant_id user_id : ℕ) (r : RecordPayment) (s : Session)
      → IsRow t k row s.db
      → IsRow t k row (recorded_db tenant_id user_id r s)
  IsRow-recorded tenant_id user_id r s there = ground (
    arith,
    there,
    find-append (is_payment t k) s.db.payments
        (new_payment tenant_id user_id r (s.clock s.read) (s.uuids (suc s.drawn)) ∷ []),
  )

  -- No void reaches a row that is not recorded.
  IsRow-voided :
      (tenant_id user_id : ℕ) (r : VoidPayment) (p : PaymentRow) (s : Session)
      → IsRow t k row s.db
      → IsRow t k row (voided_db tenant_id user_id r p s)
  IsRow-voided tenant_id user_id r p s there = ground (
    arith,
    there,
    dead,
    find-update (is_payment t k) (is_voidable tenant_id r.payment_id)
        (void_row user_id (strip r.reason) (s.clock s.read)) (λ x. refl) s.db.payments,
  )

voided-IsRow :
    (tenant_id user_id : ℕ) (r : VoidPayment) (p : PaymentRow) (s : Session)
    → find (is_payment tenant_id r.payment_id) s.db.payments ≡ some p
    → is_recorded p.status ≡ true
    → IsRow tenant_id r.payment_id
        (void_row user_id (strip r.reason) (s.clock s.read) p)
        (voided_db tenant_id user_id r p s)
voided-IsRow tenant_id user_id r p s first live = ground (
  arith,
  first,
  live,
  find_sound (is_payment tenant_id r.payment_id) s.db.payments p first,
  find-update (is_payment tenant_id r.payment_id) (is_voidable tenant_id r.payment_id)
      (void_row user_id (strip r.reason) (s.clock s.read)) (λ x. refl) s.db.payments,
)

-- Behind a cashier's void, with a reason and under a new key, of a recorded payment on an open check
-- whose id names one row and which no correction explains yet, no sequence of payments, voids and
-- closings by any actors changes the payment: its row stays the one with the status voided, and with
-- the time, the cashier and the trimmed reason of that void.
pub void_payment_once :
    (actor : ActorContext) (tenant_id user_id : ℕ) (r : VoidPayment) (p : PaymentRow) (c : Check)
    (s : Session) (db : Db)
    → has_role cashier actor ≡ true
    → actor.tenant_id ≡ some tenant_id
    → actor.user_id ≡ some user_id
    → is_empty (strip r.reason) ≡ false
    → payment_row tenant_id r.payment_id s.db ≡ some (p, c)
    → find (is_payment tenant_id r.payment_id) s.db.payments ≡ some p
    → count (is_payment tenant_id r.payment_id) s.db.payments ≤ 1
    → is_open c.status ≡ true
    → is_recorded p.status ≡ true
    → is_none p.voided_at ≡ true
    → void_idempotency_row tenant_id r.payment_id r.idempotency_key s.db ≡ none
    → find (is_correction tenant_id p.check_id r.payment_id) s.db.cashier_corrections ≡ none
    → Reaches (void_payment actor r s).1.committed db
    → find (is_payment tenant_id r.payment_id) db.payments
      ≡ some (record p {
        status = voided;
        voided_at = some (s.clock s.read);
        voided_by_user_id = some user_id;
        void_reason = some (strip r.reason);
        updated_at = s.clock s.read;
      })
void_payment_once actor tenant_id user_id r p c s db role at_tenant at_user reason found first one
      opened live unvoided new unexplained reached =
    let row : PaymentRow = void_row user_id (strip r.reason) (s.clock s.read) p in
    Reaches-Kept (IsRow tenant_id r.payment_id row)
      (λ t u q check s' at_check within there.
        IsRow-recorded tenant_id r.payment_id row refl t u q s' there)
      (λ t u q p' s' there. IsRow-voided tenant_id r.payment_id row refl t u q p' s' there)
      (λ t u check_id table_session_id why now closure_id event_id d there. there)
      (rw
        (void_payment_accepts actor tenant_id user_id r p c s role at_tenant at_user reason found
          first one opened live unvoided new unexplained)
        (voided-IsRow tenant_id user_id r p s first live))
      reached
