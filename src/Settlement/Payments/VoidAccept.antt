-- ===== src/Settlement/Payments/VoidAccept.antt =====
-- A void that passes the guards of `void_payment`, and the same request behind it.
use io_tables.Common.{
  ℕ, suc, ◌-◌, ◌≤◌, ◌≡◌, refl, Bool, true, false, none, some, List, [], ◌∷◌, find, select, count,
  insert, strip, is_empty, is_none, eq_refl, arith, find-append, find-update,
}
use io_tables.Actor.{ActorContext, has_role, cashier}
use io_tables.Database.{Check, PaymentRow, PaymentVoidIdempotency, is_open, is_recorded, completed}
use io_tables.Session.{◌>>=◌, case_option, Session, ok}
use io_tables.Settlement.Billing.{paid_minor, total_minor, bill_summary_for_check}
use io_tables.Settlement.Payments.Queries.{
  PaymentVoidResult, check_row, payment_row, is_payment, is_void_key, void_idempotency_row,
  is_correction, payment_void_correction_id, payment_void_result, to_payment,
}
use io_tables.Settlement.Payments.Void.{
  VoidPayment, new_void_key, new_correction, void_row, replay_void, void_new, void_payment,
}
use io_tables.Settlement.Payments.VoidLaws.{
  voided_db, voided_session, void_writes_lem, payment_row-voided, check_row-payment,
  paid_minor-voided,
}

-- The key of a void, as it is stored behind the writes.
abbrev pub used_void_key : ℕ → VoidPayment → Session → PaymentVoidIdempotency
used_void_key tenant_id r s = record (new_void_key tenant_id r (s.clock s.read) (s.uuids s.drawn)) {
  status = completed;
  completed_at = some (s.clock s.read);
}

void_idempotency_row-voided :
    (tenant_id user_id : ℕ) (r : VoidPayment) (p : PaymentRow) (s : Session)
    → void_idempotency_row tenant_id r.payment_id r.idempotency_key s.db ≡ none
    → void_idempotency_row tenant_id r.payment_id r.idempotency_key
        (voided_db tenant_id user_id r p s)
      ≡ some (used_void_key tenant_id r s)
unfolding void_idempotency_row
void_idempotency_row-voided tenant_id user_id r p s new = ground (
  arith,
  eq_refl r.idempotency_key,
  find-append (is_void_key tenant_id r.payment_id r.idempotency_key) s.db.payment_void_idempotency
      (new_void_key tenant_id r (s.clock s.read) (s.uuids s.drawn) ∷ []),
  find-update (is_void_key tenant_id r.payment_id r.idempotency_key)
      (is_void_key tenant_id r.payment_id r.idempotency_key)
      (λ k. record k { status = completed; completed_at = some (s.clock s.read) }) (λ k. refl)
      (insert (new_void_key tenant_id r (s.clock s.read) (s.uuids s.drawn))
        s.db.payment_void_idempotency),
)

select-insert-none {ℓ} :
    {A : Type ℓ} (q : A → Bool) (x : A) (xs : List A)
    → find q xs ≡ none
    → q x ≡ true
    → select q (insert x xs) ≡ x ∷ []
select-insert-none q x [] h hx = ground arith
select-insert-none q x (y ∷ xs) h hx = ground (arith, select-insert-none q x xs)

-- The correction that explains the void is found.
correction-voided :
    (tenant_id user_id : ℕ) (r : VoidPayment) (p : PaymentRow) (s : Session)
    → find (is_correction tenant_id p.check_id r.payment_id) s.db.cashier_corrections ≡ none
    → payment_void_correction_id tenant_id p.check_id r.payment_id
        (voided_db tenant_id user_id r p s)
      ≡ some (s.uuids (suc s.drawn))
unfolding payment_void_correction_id
correction-voided tenant_id user_id r p s first = simp (
    select-insert-none (is_correction tenant_id p.check_id r.payment_id)
      (new_correction tenant_id user_id r p.check_id (s.clock s.read) (s.uuids (suc s.drawn)))
      s.db.cashier_corrections first (ground (arith, eq_refl "payment")))

-- The answer to an accepted void.
abbrev pub void_answer :
    ℕ → ℕ → VoidPayment → PaymentRow → Check → Session → Bool → PaymentVoidResult
void_answer tenant_id user_id r p c s duplicate = record {
  payment = to_payment (void_row user_id (strip r.reason) (s.clock s.read) p, c);
  paid_minor = paid_minor tenant_id p.check_id s.db - p.amount_minor;
  remaining_minor =
      total_minor tenant_id c.table_session_id s.db
      - (paid_minor tenant_id p.check_id s.db - p.amount_minor);
  correction_id = s.uuids (suc s.drawn);
  duplicate = duplicate;
}

module _ (actor : ActorContext) (tenant_id user_id : ℕ) (r : VoidPayment) (p : PaymentRow)
    (c : Check) (s : Session) (role : has_role cashier actor ≡ true)
    (at_tenant : actor.tenant_id ≡ some tenant_id) (at_user : actor.user_id ≡ some user_id)
    (reason : is_empty (strip r.reason) ≡ false)
    (found : payment_row tenant_id r.payment_id s.db ≡ some (p, c))
    (first : find (is_payment tenant_id r.payment_id) s.db.payments ≡ some p)
    (one : count (is_payment tenant_id r.payment_id) s.db.payments ≤ 1)
    (opened : is_open c.status ≡ true) (live : is_recorded p.status ≡ true)
    (unvoided : is_none p.voided_at ≡ true)
    (new : void_idempotency_row tenant_id r.payment_id r.idempotency_key s.db ≡ none)
    (unexplained : find (is_correction tenant_id p.check_id r.payment_id) s.db.cashier_corrections
      ≡ none) where
  paid_falls :
      paid_minor tenant_id p.check_id (voided_db tenant_id user_id r p s)
      ≡ paid_minor tenant_id p.check_id s.db - p.amount_minor
  paid_falls = omega (arith, paid_minor-voided tenant_id user_id r p c s one first live)

  check_row-voided : check_row tenant_id p.check_id (voided_db tenant_id user_id r p s) ≡ some c
  unfolding check_row
  check_row-voided = check_row-payment tenant_id user_id r p c s found

  -- A cashier's void, with a reason and under a new key, of a recorded payment on an open check
  -- whose id names one row and which no correction explains yet, is committed: the answer shows the payment voided, the correction that
  -- explains it, and the bill with the amount taken back.
  pub void_payment_accepts :
      void_payment actor r s
      ≡ (ok (void_answer tenant_id user_id r p c s false), voided_session tenant_id user_id r p s)
  unfolding void_payment void_new payment_void_result bill_summary_for_check total_minor case_option
      ◌>>=◌
  void_payment_accepts = simp (
    role,
    at_tenant,
    at_user,
    reason,
    found,
    check_row-payment tenant_id user_id r p c s found,
    opened,
    new,
    live,
    unvoided,
    void_writes_lem tenant_id user_id r p s,
    payment_row-voided tenant_id user_id r p c s found live,
    correction-voided tenant_id user_id r p s unexplained,
    paid_falls,
  )

  -- Directly behind a void that was accepted in this way, the same request by the same cashier gives
  -- the same answer, marked as a duplicate, and changes nothing.
  pub void_payment_replays :
      void_payment actor r (voided_session tenant_id user_id r p s)
      ≡ (ok (void_answer tenant_id user_id r p c s true), voided_session tenant_id user_id r p s)
  unfolding void_payment replay_void payment_void_result bill_summary_for_check total_minor
      case_option ◌>>=◌
  void_payment_replays = simp (
    role,
    at_tenant,
    at_user,
    reason,
    payment_row-voided tenant_id user_id r p c s found live,
    check_row-voided,
    opened,
    void_idempotency_row-voided tenant_id user_id r p s new,
    eq_refl,
    correction-voided tenant_id user_id r p s unexplained,
    paid_falls,
  )
