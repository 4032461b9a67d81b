-- ===== src/Tests/Settlement.antt =====
-- The settlement services on the venue.
use io_tables.Common.{
  ◌≡◌, refl, pos, true, false, none, some, [], ◌∷◌, order_by, find, arith, ◌+◌, strip,
}
use io_tables.Actor.{has_role}
use io_tables.Database.{PaymentRow, physical, voided}
use io_tables.Errors.{overpayment_not_allowed, remaining_balance_not_zero, reason_required}
use io_tables.Session.{Session, ok, err, ◌>>=◌, case_option, begin}
use io_tables.Settlement.Billing.{
  check_for_session, closure_row, close_session, paid_minor, total_minor, currency,
  bill_summary_for_check, venue_board, active_session_row, board_rows,
}
use io_tables.Settlement.Billing.Closing.{
  closed_session, closed_answer, close_session_decides, close_session_again, close_session_refused,
}
use io_tables.Settlement.Payments.{
  RecordPayment, VoidPayment, new_payment, check_row, payment_row, idempotency_row,
  void_idempotency_row, is_payment, record_payment, record_new, void_payment,
}
use io_tables.Settlement.Payments.RecordLaws.{recorded_session}
use io_tables.Settlement.Payments.RecordErrors.{record_payment_refused}
use io_tables.Settlement.Payments.Accept.{answer, record_payment_accepts, record_payment_replays}
use io_tables.Settlement.Payments.VoidLaws.{voided_session}
use io_tables.Settlement.Payments.VoidAccept.{
  void_answer, void_payment_accepts, void_payment_replays,
}
use io_tables.Settlement.Balance.VoidedOnce.{void_payment_once}
use io_tables.Settlement.Payments.VoidErrors.{void_payment_refused}
use io_tables.Settlement.Balance.{IsCovered}
use io_tables.Settlement.Balance.Requests.{
  record_payment_request, void_payment_request, serve, here, next, never_overpaid,
}
use io_tables.Tests.Fixture.{the_cashier, check, table_session, venue, start}

abbrev pay : RecordPayment
pay = record {
  check_id = 20;
  amount_minor = pos 300;
  currency = "TRY";
  method = "cash";
  idempotency_key = "k1";
  request_hash = "h1";
}

record_payment_accepts_example :
    record_payment the_cashier pay start
    ≡ (ok (answer 1 7 pay check start false), recorded_session 1 7 pay start)
unfolding has_role check_row idempotency_row currency total_minor paid_minor
record_payment_accepts_example =
    record_payment_accepts the_cashier 1 7 pay check start refl refl refl refl refl refl refl refl
      refl refl (omega arith)

record_payment_replays_example :
    record_payment the_cashier pay (recorded_session 1 7 pay start)
    ≡ (ok (answer 1 7 pay check start true), recorded_session 1 7 pay start)
unfolding has_role check_row idempotency_row currency total_minor paid_minor
record_payment_replays_example =
    record_payment_replays the_cashier 1 7 pay check start refl refl refl refl refl refl refl refl
      refl refl (omega arith)

abbrev too_much : RecordPayment
too_much = record pay { amount_minor = pos 801 }

refused : (record_payment the_cashier too_much start).0 ≡ err overpayment_not_allowed
unfolding record_payment record_new has_role check_row idempotency_row bill_summary_for_check
    currency total_minor paid_minor case_option ◌>>=◌
refused = refl

record_payment_refused_example :
    (record_payment the_cashier too_much start).1.committed ≡ start.committed
record_payment_refused_example = record_payment_refused the_cashier too_much start refused

abbrev void : VoidPayment
void = record {
  payment_id = 1001;
  reason = " wrong table ";
  idempotency_key = "v1";
  request_hash = "w1";
}

-- The session behind the payment of 300.
abbrev paid : Session
paid = begin (recorded_session 1 7 pay start).db (λ n. 2000 + n) (λ n. 200 + n)

abbrev payment : PaymentRow
payment = new_payment 1 7 pay 100 1001

void_payment_accepts_example :
    void_payment the_cashier void paid
    ≡ (ok (void_answer 1 7 void payment check paid false), voided_session 1 7 void payment paid)
unfolding has_role payment_row void_idempotency_row strip
void_payment_accepts_example =
    void_payment_accepts the_cashier 1 7 void payment check paid refl refl refl refl refl refl
      (omega arith) refl refl refl refl refl

void_payment_replays_example :
    void_payment the_cashier void (voided_session 1 7 void payment paid)
    ≡ (ok (void_answer 1 7 void payment check paid true), voided_session 1 7 void payment paid)
unfolding has_role payment_row void_idempotency_row strip
void_payment_replays_example =
    void_payment_replays the_cashier 1 7 void payment check paid refl refl refl refl refl refl
      (omega arith) refl refl refl refl refl

abbrev void_again : VoidPayment
void_again = record void { idempotency_key = "v2"; request_hash = "w2" }

-- The payment is voided, and then voided again by the next request.
void_payment_once_example :
    find
      (is_payment 1 void.payment_id)
      (serve the_cashier
        (λ n. 3000 + n)
        (λ n. 900 + n)
        (void_payment the_cashier void paid).1.committed
        (void_payment_request void_again)).payments
    ≡ some (record payment {
      status = voided;
      voided_at = some (paid.clock paid.read);
      voided_by_user_id = some 7;
      void_reason = some (strip void.reason);
      updated_at = paid.clock paid.read;
    })
unfolding has_role payment_row void_idempotency_row strip
void_payment_once_example =
    void_payment_once the_cashier 1 7 void payment check paid _ refl refl refl refl refl refl
      (omega arith) refl refl refl refl refl
      (next the_cashier (λ n. 3000 + n) (λ n. 900 + n) (void_payment_request void_again) here)

abbrev void_unexplained : VoidPayment
void_unexplained = record void { reason = "  " }

unexplained : (void_payment the_cashier void_unexplained paid).0 ≡ err reason_required
unfolding void_payment has_role strip ◌>>=◌
unexplained = refl

void_payment_refused_example :
    (void_payment the_cashier void_unexplained paid).1.committed ≡ paid.committed
void_payment_refused_example = void_payment_refused the_cashier void_unexplained paid unexplained

close_session_decides_example :
    ((close_session the_cashier 10 none start).0 ≡ err remaining_balance_not_zero)
    × (check_for_session 1 10 (close_session the_cashier 10 none start).1.committed
        ≡ some (check, table_session))
    × (closure_row 1 10 (close_session the_cashier 10 none start).1.committed ≡ none)
unfolding has_role check_for_session total_minor paid_minor closure_row
close_session_decides_example =
    close_session_decides the_cashier 1 7 10 none check table_session start refl refl refl refl refl
      refl refl refl

close_session_again_example :
    close_session the_cashier 10 (some "late") (closed_session 1 7 20 10 none start)
    ≡ (ok (closed_answer 10 20 100), closed_session 1 7 20 10 none start)
unfolding has_role check_for_session closure_row
close_session_again_example =
    close_session_again the_cashier 1 7 10 none check table_session start refl refl refl refl refl
      refl (some "late") refl

unpaid : (close_session the_cashier 10 none start).0 ≡ err remaining_balance_not_zero
unfolding close_session has_role check_for_session bill_summary_for_check total_minor paid_minor
    ◌>>=◌
unpaid = refl

close_session_refused_example :
    (close_session the_cashier 10 none start).1.committed ≡ start.committed
close_session_refused_example = close_session_refused the_cashier 10 none start unpaid

venue-IsCovered : IsCovered venue
unfolding paid_minor
venue-IsCovered tenant_id check_id c e = omega arith

never_overpaid_example :
    IsCovered (serve the_cashier (λ n. 1000 + n) (λ n. 100 + n) venue (record_payment_request pay))
never_overpaid_example =
    never_overpaid venue-IsCovered
      (next the_cashier (λ n. 1000 + n) (λ n. 100 + n) (record_payment_request pay) here)

board :
    (venue_board the_cashier false start).0
    ≡ ok (record {
      tables =
          (record {
            table_id = 4;
            hall_id = 3;
            table_label = "Garden 1";
            hall_label = "Garden";
            mode = physical;
            table_session_id = some 10;
            check_id = some 20;
            status = "occupied";
            opened_at = some 50;
            total_minor = 800;
            paid_minor = 0;
            remaining_minor = 800;
          }
            ∷ []);
      derived_at = 100;
    })
unfolding venue_board has_role board_rows order_by active_session_row check_for_session
    bill_summary_for_check total_minor paid_minor ◌>>=◌
board = refl
