-- ===== src/Settlement/Billing/Closing.antt =====
-- What closing a table session does, and what is refused behind it.
use io_tables.Common.{
  ℕ, suc, ◌-◌, ◌≤◌, ◌<◌, ◌≡◌, leb, refl, String, Bool, true, false, ◌&&◌, Option, none, some, [],
  ◌∷◌, update, arith, find-append, find-join-update, find-join-update_right, find-join_sound, ◌==◌,
  find_sound, if◌then◌else◌, Bool-cases, inl, inr,
}
use io_tables.Actor.{ActorContext, has_role, cashier}
use io_tables.Errors.{ApiError, remaining_balance_not_zero}
use io_tables.Database.{Check, TableSession, opened, closed}
use io_tables.Session.{◌>>=◌, Session, ok, err}
use io_tables.Session.Ends.{Ends, Untouched, Ends-Untouched, ends_rules}
use io_tables.Settlement.Billing.{
  ClosedTableSession, total_minor, paid_minor, bill_summary_for_check, check_for_session,
  closure_row, close_writes, close_open_session, close_session, stripped,
}

-- The session behind the writes: everything is committed.
abbrev pub closed_session : ℕ → ℕ → ℕ → ℕ → Option String → Session → Session
closed_session tenant_id user_id check_id table_session_id reason s =
    let db =
      close_writes tenant_id user_id check_id table_session_id reason (s.clock s.read)
        (s.uuids s.drawn) (s.uuids (suc s.drawn)) s.db in
    record {
      db = db;
      committed = db;
      uuids = s.uuids;
      drawn = suc (suc s.drawn);
      clock = s.clock;
      read = suc s.read;
    }

-- The answer, at the time `now`.
abbrev pub closed_answer : ℕ → ℕ → ℕ → ClosedTableSession
closed_answer table_session_id check_id now = record {
  table_session_id = table_session_id;
  check_id = check_id;
  closed_at = now;
  status = closed;
}

module _ (actor : ActorContext) (tenant_id user_id table_session_id : ℕ) (reason : Option String)
    (c : Check) (t : TableSession) (s : Session) (role : has_role cashier actor ≡ true)
    (at_tenant : actor.tenant_id ≡ some tenant_id) (at_user : actor.user_id ≡ some user_id)
    (found : check_for_session tenant_id table_session_id s.db ≡ some (c, t))
    (check_opened : c.status ≡ opened) (session_opened : t.status ≡ opened) where
  close_session-settled :
      total_minor tenant_id table_session_id s.db ≤ paid_minor tenant_id c.id s.db
      → close_session actor table_session_id reason s ≡ (
        ok (closed_answer table_session_id c.id (s.clock s.read)),
        closed_session tenant_id user_id c.id table_session_id reason s,
      )
  unfolding close_session close_open_session bill_summary_for_check ◌>>=◌
  close_session-settled covered =
      let nothing : (total_minor tenant_id table_session_id s.db - paid_minor tenant_id c.id s.db
            == 0)
          ≡ true =
        ground (arith, covered) in
      simp (role, at_tenant, at_user, found, check_opened, session_opened, nothing)

  close_session-unsettled :
      paid_minor tenant_id c.id s.db < total_minor tenant_id table_session_id s.db
      → close_session actor table_session_id reason s ≡ (err remaining_balance_not_zero, s)
  unfolding close_session close_open_session bill_summary_for_check ◌>>=◌
  close_session-unsettled short =
      let something : (total_minor tenant_id table_session_id s.db - paid_minor tenant_id c.id s.db
            == 0)
          ≡ false =
        ground (arith, short) in
      simp (role, at_tenant, at_user, found, check_opened, session_opened, something)

  closure_row-closed :
      closure_row tenant_id table_session_id s.db ≡ none
      → closure_row tenant_id table_session_id
          (closed_session tenant_id user_id c.id table_session_id reason s).db
        ≡ some (record {
          id = s.uuids s.drawn;
          tenant_id = tenant_id;
          table_session_id = table_session_id;
          check_id = c.id;
          cashier_user_id = user_id;
          reason = stripped reason;
          closed_at = s.clock s.read;
        })
  unfolding closure_row
  closure_row-closed first = ground (
    arith,
    find-append (λ k. (k.tenant_id == tenant_id) && (k.table_session_id == table_session_id))
        s.db.session_closures
        (record {
          id = s.uuids s.drawn;
          tenant_id = tenant_id;
          table_session_id = table_session_id;
          check_id = c.id;
          cashier_user_id = user_id;
          reason = stripped reason;
          closed_at = s.clock s.read;
        }
          ∷ []),
  )

  -- Check and session as they are found behind the writes.
  check_for_session-closed :
      check_for_session tenant_id table_session_id
        (closed_session tenant_id user_id c.id table_session_id reason s).db
      ≡ some (
        record c { status = closed; closed_at = some (s.clock s.read) },
        record t {
          status = closed;
          closed_at = some (s.clock s.read);
          updated_at = s.clock s.read;
        },
      )
  unfolding check_for_session
  check_for_session-closed =
      let q : Check → Bool =
        λ c. (c.tenant_id == tenant_id) && (c.table_session_id == table_session_id) in
      let on : Check → TableSession → Bool =
        λ c t. (t.tenant_id == c.tenant_id) && (t.id == c.table_session_id) in
      let hit_check : Check → Bool = λ k. (k.tenant_id == tenant_id) && (k.id == c.id) in
      let hit : TableSession → Bool =
        λ k. (k.tenant_id == tenant_id) && (k.id == table_session_id) in
      let close_check : Check → Check =
        λ c. record c { status = closed; closed_at = some (s.clock s.read) } in
      let close : TableSession → TableSession = λ t. record t {
        status = closed;
        closed_at = some (s.clock s.read);
        updated_at = s.clock s.read;
      } in
      let (here, match) = find-join_sound q on s.db.checks s.db.table_sessions c t found in
      ground (
        arith,
        here,
        found,
        find_sound (on c) s.db.table_sessions t match,
        find-join-update q on hit_check close_check (λ x. refl) (λ x. refl) s.db.checks
            (update hit close s.db.table_sessions),
        find-join-update_right q on hit close (λ x y. refl) s.db.checks s.db.table_sessions,
      )

  -- In a request that has written nothing yet, an open session with an open check and no closure is
  -- closed by a cashier exactly when what is paid covers the bill. Then the time of the closing is answered, and what is committed has the check
  -- and the session closed at that time, otherwise as they were, and a closure with the cashier and
  -- the reason. Otherwise the remaining balance is the error, and what is committed has the check and
  -- the session as they were, and no closure.
  pub close_session_decides :
      s.committed ≡ s.db
      → closure_row tenant_id table_session_id s.db ≡ none
      → ((close_session actor table_session_id reason s).0 ≡ (
          if leb (total_minor tenant_id table_session_id s.db) (paid_minor tenant_id c.id s.db)
          then ok (closed_answer table_session_id c.id (s.clock s.read))
          else err remaining_balance_not_zero))
        × (check_for_session tenant_id table_session_id
              (close_session actor table_session_id reason s).1.committed
            ≡ (if leb (total_minor tenant_id table_session_id s.db) (paid_minor tenant_id c.id s.db)
                then some (
                  record c { status = closed; closed_at = some (s.clock s.read) },
                  record t {
                    status = closed;
                    closed_at = some (s.clock s.read);
                    updated_at = s.clock s.read;
                  },
                )
                else some (c, t)))
        × (closure_row tenant_id table_session_id
              (close_session actor table_session_id reason s).1.committed
            ≡ (if leb (total_minor tenant_id table_session_id s.db) (paid_minor tenant_id c.id s.db)
                then some (record {
                  id = s.uuids s.drawn;
                  tenant_id = tenant_id;
                  table_session_id = table_session_id;
                  check_id = c.id;
                  cashier_user_id = user_id;
                  reason = stripped reason;
                  closed_at = s.clock s.read;
                })
                else none))
  close_session_decides saved first =
      elim (Bool-cases
        (leb (total_minor tenant_id table_session_id s.db) (paid_minor tenant_id c.id s.db))) [
          | inl covered ↦ rw covered (
              rw (close_session-settled (ground (arith, covered)))
                (refl, check_for_session-closed, closure_row-closed first))
          | inr short ↦ rw short (
              rw (close_session-unsettled (ground (arith, short)))
                (refl, rw saved found, rw saved first))
        ]

  -- A session that was closed is closed again with the time of the first closing, and nothing
  -- changes, if the first closing was its only one.
  pub close_session_again :
      (other_reason : Option String)
      → closure_row tenant_id table_session_id s.db ≡ none
      → close_session actor table_session_id other_reason
          (closed_session tenant_id user_id c.id table_session_id reason s)
        ≡ (
          ok (closed_answer table_session_id c.id (s.clock s.read)),
          closed_session tenant_id user_id c.id table_session_id reason s,
        )
  unfolding close_session ◌>>=◌
  close_session_again other_reason first =
      simp (role, at_tenant, at_user, check_for_session-closed, closure_row-closed first)

close_open_session-Untouched :
    (tenant_id user_id check_id table_session_id : ℕ) (reason : Option String) (s : Session)
    → Ends
        (Untouched s.committed)
        (close_open_session tenant_id user_id check_id table_session_id reason s)
unfolding close_open_session ◌>>=◌
close_open_session-Untouched tenant_id user_id check_id table_session_id reason s = record {
  at = tt;
}

close_session-Untouched :
    (actor : ActorContext) (table_session_id : ℕ) (reason : Option String) (s : Session)
    → Ends (Untouched s.committed) (close_session actor table_session_id reason s)
unfolding close_session
close_session-Untouched actor table_session_id reason s =
    search (ends_rules, close_open_session-Untouched) depth 30

-- A closing that is refused leaves what is committed alone.
pub close_session_refused :
    (actor : ActorContext) (table_session_id : ℕ) (reason : Option String) (s : Session)
    {e : ApiError}
    → (close_session actor table_session_id reason s).0 ≡ err e
    → (close_session actor table_session_id reason s).1.committed ≡ s.committed
close_session_refused actor table_session_id reason s =
    Ends-Untouched (close_session actor table_session_id reason s)
      (close_session-Untouched actor table_session_id reason s)
