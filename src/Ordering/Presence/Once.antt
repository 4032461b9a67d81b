-- ===== src/Ordering/Presence/Once.antt =====
-- What `redeem_token` leaves committed, by what marking the token as used makes of the tokens.
use io_tables.Common.{ℕ, ◌≡◌, refl, String, Bool, true, false, Option, List, some, update}
use io_tables.Database.{Db, TableAccessToken, VenueTable, CustomerOrderingSession}
use io_tables.Errors.{ApiError}
use io_tables.Session.{err, Session, ◌>>=◌}
use io_tables.Session.Ends.{
  Ends, Untouched, Ends-Untouched, Ends-pure, Ends-pure_bind, Ends-nested, Ends-uuid4, Ends-utc_now,
  Ends-query, Ends-or_raise, Ends-raise_if, Ends-raise, Ends-err, Ends-execute, Ends-commit,
  Ends-Pending, Pending, Ends-rollback, Ends-case_option,
}
use io_tables.Ordering.Presence.Queries.{
  PresenceServices, is_consumable, consumed, consumable_token, generate_token,
}
use io_tables.Ordering.Presence.Redeem.{
  refuse_token, consume_token, start_session, renew_session, refuse_elsewhere, redeem_token,
}

-- The tokens of a database satisfy `R`.
abbrev pub Of : (List TableAccessToken → Type 0) → Db → Type 0
Of R db = R db.table_access_tokens

module _ (R : List TableAccessToken → Type 0) (c : Db) where
  refuse_token-Pending :
      (other : String) (now : ℕ) (s : Session)
      → s.committed ≡ c
      → Ends (Pending (Of R) c) (refuse_token other now s)
  unfolding refuse_token
  refuse_token-Pending other now s same = Ends-query _ _ _ (
      Ends-rollback _ _ (
        Ends-raise_if _ _ _ _ same
          (λ alive. Ends-raise_if _ _ _ _ same (λ unused. Ends-raise _ _ same))))

  consume_token-Pending :
      (other : String) (tenant_id now : ℕ) (s : Session)
      → s.committed ≡ c
      → ((t : TableAccessToken)
          → consumable_token tenant_id other now s.db ≡ some t
          → R (update (is_consumable tenant_id other now) (consumed now) s.db.table_access_tokens))
      → Ends (Pending (Of R) c) (consume_token other tenant_id now s)
  unfolding consume_token
  consume_token-Pending other tenant_id now s same spends = Ends-query _ _ _ (
      Ends-execute _ _ _ (
        Ends-case_option _ _ _ _ (λ gone. refuse_token-Pending other now _ same)
          (λ t found. Ends-pure _ _ (same, spends t found))))

  refuse_elsewhere-Pending :
      (elsewhere : Bool) (s : Session)
      → s.committed ≡ c
      → Of R s.db
      → Ends (Pending (Of R) c) (refuse_elsewhere elsewhere s)
  unfolding refuse_elsewhere ◌>>=◌
  refuse_elsewhere-Pending false s same inv = Ends-pure _ _ (same, inv)
  refuse_elsewhere-Pending true s same inv = Ends-err _ _ same

module _ (R : List TableAccessToken → Type 0) (services : PresenceServices) (c : Db)
    {P : Bool → Session → Type 0} (fails : (s : Session) → s.committed ≡ c → P false s)
    (returns : (s : Session) → Of R s.committed → P true s) where
  start_session-Ends :
      (tenant_id : ℕ) (token_row : TableAccessToken) (table_row : VenueTable)
      (table_session_id : Option ℕ) (now : ℕ) (s : Session)
      → Of R s.db
      → Ends P (start_session services tenant_id token_row table_row table_session_id now s)
  unfolding start_session generate_token
  start_session-Ends tenant_id token_row table_row table_session_id now s inv =
      Ends-nested _ _ _ _ (
        Ends-uuid4 _ _ (
          Ends-pure_bind _ _ _ (
            Ends-uuid4 _ _ (Ends-execute _ _ _ (Ends-commit _ _ (Ends-pure _ _ (returns _ inv)))))))

  renew_session-Ends :
      (cookie : String) (token_row : TableAccessToken) (table_row : VenueTable)
      (table_session_id : Option ℕ) (now : ℕ) (o : CustomerOrderingSession) (s : Session)
      → Of R s.db
      → Ends P (renew_session cookie token_row table_row table_session_id now o s)
  unfolding renew_session
  renew_session-Ends cookie token_row table_row table_session_id now o s inv =
      Ends-execute _ _ _ (Ends-commit _ _ (Ends-pure _ _ (returns _ inv)))

  pub redeem_token-Ends :
      (tenant_id : ℕ) (raw_qr_token : String) (cookie : Option String) (s : Session)
      → s.committed ≡ c
      → ((t : TableAccessToken)
          → consumable_token tenant_id
              (services.hash_table_access_token raw_qr_token)
              (s.clock s.read)
              s.db
            ≡ some t
          → R (
              update
                (is_consumable tenant_id
                  (services.hash_table_access_token raw_qr_token)
                  (s.clock s.read))
                (consumed (s.clock s.read))
                s.db.table_access_tokens))
      → Ends P (redeem_token services tenant_id raw_qr_token cookie s)
  unfolding redeem_token
  redeem_token-Ends tenant_id raw_qr_token cookie s same spends = Ends-utc_now _ _ (
      Ends-Pending (Of R) c _ _ _ (consume_token-Pending R c _ tenant_id _ _ same spends) fails
        (λ token_row s' h inv. Ends-query _ _ _ (
          Ends-or_raise _ _ _ _ (fails _ h) (λ table_row at_table. Ends-query _ _ _ (
            Ends-Pending (Of R) c _ _ _ (refuse_elsewhere-Pending R c _ _ h inv) fails
              (λ u s'' h' inv'. Ends-query _ _ _ (
                Ends-case_option _ _ _ _
                  (λ new. start_session-Ends tenant_id token_row table_row _ _ _ inv')
                  (λ o known. renew_session-Ends _ token_row table_row _ _ o _ inv'))))))))

-- A redemption that is refused leaves what is committed alone: it does not use up the token.
pub redeem_token_refused :
    (services : PresenceServices) (tenant_id : ℕ) (raw_qr_token : String) (cookie : Option String)
    (s : Session) {e : ApiError}
    → (redeem_token services tenant_id raw_qr_token cookie s).0 ≡ err e
    → (redeem_token services tenant_id raw_qr_token cookie s).1.committed ≡ s.committed
redeem_token_refused services tenant_id raw_qr_token cookie s =
    Ends-Untouched (redeem_token services tenant_id raw_qr_token cookie s) (
      redeem_token-Ends (λ tokens. Unit) services s.committed {P = Untouched s.committed}
        (λ s' same. same) (λ s' h. tt) tenant_id raw_qr_token cookie s refl (λ t found. tt))
