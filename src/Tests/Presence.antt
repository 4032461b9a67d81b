-- ===== src/Tests/Presence.antt =====
-- A display at a table shows a code, and a guest scans it.
use io_tables.Common.{
  Bool, true, false, str_eq, ◌+◌, ◌≡◌, refl, ◌⊎◌, none, some, [], ◌∷◌, arith, if◌then◌else◌, ltb,
}
use io_tables.Database.{Db, TableDisplayCredential, TableAccessToken, granted}
use io_tables.Errors.{token_expired, token_consumed, fresh_presence_required}
use io_tables.Session.{Session, ok, err, ◌>>=◌, case_option, begin}
use io_tables.Ordering.Presence.Queries.{
  PresenceServices, PresenceRedeemResult, load_active_display_credential, load_enabled_table,
  current_open_table_session_id, consumable_token, token_by_hash, generate_token,
}
use io_tables.Ordering.Presence.Issue.{issue_current_qr_token}
use io_tables.Ordering.Presence.Redeem.{
  refuse_token, consume_token, start_session, renew_session, refuse_elsewhere, redeem_token,
  get_presence_state,
}
use io_tables.Ordering.Presence.Accept.{started_answer}
use io_tables.Ordering.Presence.Window.{presence_window}
use io_tables.Ordering.Presence.Renewal.{renewed_presence_window}
use io_tables.Ordering.Presence.Decide.{verdict, consume_token_decides}
use io_tables.Ordering.Presence.RoundTrip.{payload, issued_token, issued_db, issued_token_redeems}
use io_tables.Ordering.Presence.Once.{redeem_token_refused}
use io_tables.Ordering.Presence.Requests.{
  presence_here, presence_next, state_request, redeemed_once,
}
use io_tables.Tests.Fixture.{venue, table}
use io_tables.Tests.Ordering.{guest}

abbrev services : PresenceServices
services = record {
  hash_customer_session_token = λ token. token;
  hash_table_access_token = λ token. token;
  hash_display_credential = λ credential. credential;
  token_urlsafe = λ random. if ltb random 2000 then "random" else "other";
}

abbrev display : TableDisplayCredential
display = record {
  id = 80;
  tenant_id = 1;
  table_id = 4;
  credential_hash = "display";
  status = granted;
  provisioned_at = 5;
  revoked_at = none;
  last_seen_at = none;
}

abbrev qr_token : TableAccessToken
qr_token = record {
  id = 81;
  tenant_id = 1;
  table_id = 4;
  token_hash = "qr";
  expires_at = 150;
  consumed_at = none;
  created_at = 90;
}

abbrev shown : Db
shown = record venue {
  table_display_credentials = display ∷ [];
  table_access_tokens = qr_token ∷ [];
}

-- The first clock reading is 100.
abbrev scanning : Session
scanning = begin shown (λ n. 1000 + n) (λ n. 100 + n)

abbrev redeemed : PresenceRedeemResult
redeemed = record {
  customer_ordering_session_id = 1001;
  table_id = 4;
  hall_id = 3;
  fresh_until = 120000100;
  session_expires_at = 1800000100;
  customer_session_token = "random";
  cart_preserved = false;
}

redeems : (redeem_token services 1 "qr" none scanning).0 ≡ ok redeemed
unfolding redeem_token consume_token refuse_token start_session renew_session refuse_elsewhere
    generate_token consumable_token load_enabled_table current_open_table_session_id case_option
    ◌>>=◌
redeems = refl

issued_token_redeems_example :
    ((issue_current_qr_token services "display" scanning).0
      ≡ ok (payload services display scanning))
    × ((redeem_token services 1 (payload services display scanning).qr_token none (
          begin
            (issue_current_qr_token services "display" scanning).1.committed
            (λ n. 2000 + n)
            (λ n. 200 + n))).0
        ≡ ok (
            started_answer services 1
              (payload services display scanning).qr_token
              none
              (issued_token services display scanning)
              table
              (begin (issued_db services display scanning) (λ n. 2000 + n) (λ n. 200 + n))))
unfolding load_active_display_credential load_enabled_table
issued_token_redeems_example =
    issued_token_redeems services "display" display table none scanning (λ n. 2000 + n)
      (λ n. 200 + n) refl refl refl refl refl

presence_window_example :
    (get_presence_state services (some "random") (
      begin
        (redeem_token services 1 "qr" none scanning).1.committed
        (λ n. 2000 + n)
        (λ n. 130000000 + n))).0
    ≡ err fresh_presence_required
unfolding consumable_token load_enabled_table
presence_window_example =
    presence_window services 1 "qr" none qr_token table scanning refl refl refl refl refl
      (λ n. 2000 + n) (λ n. 130000000 + n)

not_the_token : (b : Bool) → str_eq (if b then "random" else "other") "qr" ≡ false
not_the_token true = refl
not_the_token false = refl

redeemed_once_example :
    ((redeem_token services 2 "qr" (some "random") (
        begin
          (get_presence_state services none (
            begin
              (redeem_token services 1 "qr" none scanning).1.committed
              (λ n. 2000 + n)
              (λ n. 130 + n))).1.committed
          (λ n. 3000 + n)
          (λ n. 140 + n))).0
      ≡ err token_expired)
    ⊎ ((redeem_token services 2 "qr" (some "random") (
          begin
            (get_presence_state services none (
              begin
                (redeem_token services 1 "qr" none scanning).1.committed
                (λ n. 2000 + n)
                (λ n. 130 + n))).1.committed
            (λ n. 3000 + n)
            (λ n. 140 + n))).0
        ≡ err token_consumed)
redeemed_once_example =
    redeemed_once services 1 "qr" none scanning (omega arith) redeemed redeems _
      (presence_next (λ n. 2000 + n) (λ n. 130 + n) (state_request none)
        (λ n. not_the_token (ltb (2000 + n) 2000)) presence_here)
      2 (some "random") (λ n. 3000 + n) (λ n. 140 + n)

consume_token_decides_example :
    (consume_token "qr" 2 100 scanning).0 ≡ verdict 2 100 (some qr_token)
unfolding token_by_hash
consume_token_decides_example = consume_token_decides "qr" 2 100 scanning refl (omega arith)

abbrev too_late : Session
too_late = begin shown (λ n. 1000 + n) (λ n. 150 + n)

expired : (redeem_token services 1 "qr" none too_late).0 ≡ err token_expired
unfolding redeem_token consume_token refuse_token consumable_token token_by_hash case_option ◌>>=◌
expired = refl

redeem_token_refused_example : (redeem_token services 1 "qr" none too_late).1.committed ≡ shown
redeem_token_refused_example = redeem_token_refused services 1 "qr" none too_late expired

-- The guest at the table scans the next code.
abbrev seated_scanning : Session
seated_scanning =
    begin (record shown { customer_ordering_sessions = guest ∷ [] }) (λ n. 1000 + n) (λ n. 100 + n)

renewed_presence_window_example :
    ((redeem_token services 1 "qr" (some "cookie") seated_scanning).0
      ≡ ok (record {
        customer_ordering_session_id = guest.id;
        table_id = qr_token.table_id;
        hall_id = table.hall_id;
        fresh_until = 120000100;
        session_expires_at = 1800000100;
        customer_session_token = "cookie";
        cart_preserved = true;
      }))
    × ((get_presence_state services (some "cookie") (
          begin
            (redeem_token services 1 "qr" (some "cookie") seated_scanning).1.committed
            (λ n. 2000 + n)
            (λ n. 130000000 + n))).0
        ≡ err fresh_presence_required)
unfolding consumable_token load_enabled_table
renewed_presence_window_example =
    renewed_presence_window services 1 "qr" "cookie" qr_token table guest seated_scanning refl refl
      refl refl (omega arith) refl refl refl (λ n. 2000 + n) (λ n. 130000000 + n)
