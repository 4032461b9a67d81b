-- ===== src/Ordering/Presence/Requests.antt =====
-- The requests of displays, cashiers and guests about presence, and what any run of them cannot do.
use io_tables.Common.{
  ℕ, ◌≤◌, ◌≡◌, refl, String, Bool, true, false, ◌&&◌, ◌⊎◌, inl, inr, Option, some, find, find_sound,
  List, count-found, count, Bool-cases, Option-cases, update, leb, is_none, arith, count-update,
  count-update_only,
}
use io_tables.Actor.{ActorContext}
use io_tables.Errors.{ApiError, token_expired, token_consumed}
use io_tables.Database.{Db, TableAccessToken}
use io_tables.Session.{Session, Result, ok, err, begin}
use io_tables.Session.Ends.{Ends, Always}
use io_tables.Ordering.Presence.Queries.{
  PresenceServices, PresenceRedeemResult, is_consumable, consumed, consumable_token, token_by_hash,
}
use io_tables.Ordering.Presence.Issue.{issue_current_qr_token, issue_virtual_table_qr_preview}
use io_tables.Ordering.Presence.Redeem.{redeem_token, get_presence_state}
use io_tables.Ordering.Presence.Decide.{verdict, redeem_token-refused}
use io_tables.Ordering.Presence.Spent.{
  has_hash, IsSpent, Spent, Spares, IsSpent-consumed, issue_current_qr_token-Spent,
  issue_virtual_table_qr_preview-Spent, get_presence_state-Spent,
}
use io_tables.Ordering.Presence.Once.{redeem_token-Ends}

-- A request about presence.
pub data PresenceRequest : Type 0 where
  display_request : String → PresenceRequest
  preview_request : ActorContext → ℕ → PresenceRequest
  redeem_request : ℕ → String → Option String → PresenceRequest
  state_request : Option String → PresenceRequest

-- What is committed once the request is answered.
abbrev pub serve_presence : PresenceServices → (ℕ → ℕ) → (ℕ → ℕ) → Db → PresenceRequest → Db
serve_presence services uuids clock db (display_request credential) =
    (issue_current_qr_token services credential (begin db uuids clock)).1.committed
serve_presence services uuids clock db (preview_request actor table_id) =
    (issue_virtual_table_qr_preview services actor table_id (begin db uuids clock)).1.committed
serve_presence services uuids clock db (redeem_request tenant_id raw_qr_token cookie) =
    (redeem_token services tenant_id raw_qr_token cookie (begin db uuids clock)).1.committed
serve_presence services uuids clock db (state_request cookie) =
    (get_presence_state services cookie (begin db uuids clock)).1.committed

-- The databases that such requests, one after the other, can lead to, where no new token has the
-- hash of the one in question.
pub data PresenceReaches (services : PresenceServices) (token_hash : String) (db : Db)
    : Db → Type 0 where
  presence_here : PresenceReaches services token_hash db db
  presence_next :
      {db' : Db} (uuids clock : ℕ → ℕ) (request : PresenceRequest)
      → Spares services token_hash uuids
      → PresenceReaches services token_hash db db'
      → PresenceReaches services token_hash db (serve_presence services uuids clock db' request)

module _ (services : PresenceServices) (token_hash : String) where
  serve_presence-Spent :
      (uuids clock : ℕ → ℕ) (db : Db) (request : PresenceRequest)
      → Spares services token_hash uuids
      → Spent token_hash db
      → Spent token_hash (serve_presence services uuids clock db request)
  serve_presence-Spent uuids clock db (display_request credential) spares inv =
      (issue_current_qr_token-Spent token_hash services credential (begin db uuids clock) spares inv
        inv).at
  serve_presence-Spent uuids clock db (preview_request actor table_id) spares inv =
      (issue_virtual_table_qr_preview-Spent token_hash services actor table_id
        (begin db uuids clock) spares inv inv).at
  serve_presence-Spent uuids clock db (redeem_request tenant_id raw_qr_token cookie) spares inv =
      (redeem_token-Ends (IsSpent token_hash) services db {P = Always (Spent token_hash)}
        (λ s same. rw same inv) (λ s h. h) tenant_id raw_qr_token cookie (begin db uuids clock) refl
        (λ t found. IsSpent-consumed token_hash _ _ _ _ inv)).at
  serve_presence-Spent uuids clock db (state_request cookie) spares inv =
      (get_presence_state-Spent token_hash services cookie (begin db uuids clock) inv inv).at

  reaches-Spent :
      {db db' : Db}
      → Spent token_hash db
      → PresenceReaches services token_hash db db'
      → Spent token_hash db'
  reaches-Spent inv presence_here = inv
  reaches-Spent inv (presence_next uuids clock request spares reached) =
      serve_presence-Spent uuids clock _ request spares (reaches-Spent inv reached)

-- What a call that returned has committed.
abbrev pub Returned : (Db → Type 0) → Bool → Session → Type 0
Returned P true s = P s.committed
Returned P false s = Unit

-- A token that was found and marked was used.
consumed-IsSpent :
    (token_hash : String) (tenant_id now : ℕ) (tokens : List TableAccessToken)
    (t : TableAccessToken)
    → count (has_hash token_hash) tokens ≤ 1
    → find (is_consumable tenant_id token_hash now) tokens ≡ some t
    → IsSpent token_hash (update (is_consumable tenant_id token_hash now) (consumed now) tokens)
consumed-IsSpent token_hash tenant_id now tokens t unique found = record {
  one = omega (
    arith,
    unique,
    count-update (has_hash token_hash) (is_consumable tenant_id token_hash now) (consumed now)
        (λ t. refl) tokens,
  );
  used =
      count-update_only (λ t. has_hash token_hash t && is_none t.consumed_at)
        (is_consumable tenant_id token_hash now) (has_hash token_hash) (consumed now)
        (λ t. ground arith) (λ t h. ground arith) (λ t h. ground arith) tokens t unique found;
}

-- A token that was used is refused as used or, later, as expired.
verdict-Spent :
    (token_hash : String) (tenant_id now : ℕ) (db : Db)
    → Spent token_hash db
    → (verdict tenant_id now (token_by_hash token_hash db) ≡ err token_expired)
      ⊎ (verdict tenant_id now (token_by_hash token_hash db) ≡ err token_consumed)
unfolding token_by_hash
verdict-Spent token_hash tenant_id now db inv = elim (Option-cases (token_by_hash token_hash db)) [
  | inl gone ↦ inl (simp (gone))
  | inr (t, found) ↦ elim (Bool-cases (leb t.expires_at now)) [
    | inl out ↦ inl (simp (found, out))
    | inr alive ↦ elim (Bool-cases (is_none t.consumed_at)) [
      | inl unused ↦ ground (
        arith,
        inv.used,
        find_sound (has_hash token_hash) db.table_access_tokens t found,
        count-found (λ t. has_hash token_hash t && is_none t.consumed_at) (has_hash token_hash)
            db.table_access_tokens t found,
      )
      | inr used ↦ inr (simp (found, alive, used))
    ]
  ]
]

refused-Spent :
    (services : PresenceServices) (raw_qr_token : String) (db : Db)
    → Spent (services.hash_table_access_token raw_qr_token) db
    → (tenant_id : ℕ) (cookie : Option String) (uuids clock : ℕ → ℕ)
    → ((redeem_token services tenant_id raw_qr_token cookie (begin db uuids clock)).0
        ≡ err token_expired)
      ⊎ ((redeem_token services tenant_id raw_qr_token cookie (begin db uuids clock)).0
          ≡ err token_consumed)
refused-Spent services raw_qr_token db inv tenant_id cookie uuids clock =
    let refused : (e : ApiError)
        → verdict tenant_id (clock 0)
            (token_by_hash (services.hash_table_access_token raw_qr_token) db)
          ≡ err e
        → (redeem_token services tenant_id raw_qr_token cookie (begin db uuids clock)).0 ≡ err e =
      λ e.
        redeem_token-refused services tenant_id raw_qr_token cookie (begin db uuids clock) e refl
          inv.one in
    elim (verdict-Spent (services.hash_table_access_token raw_qr_token) tenant_id (clock 0) db
      inv) [
        | inl out ↦ inl (refused token_expired out)
        | inr used ↦ inr (refused token_consumed used)
      ]

-- A call that returned kept what `Ends` says of a return.
redeemed-Spent :
    (token_hash : String) (o : Result PresenceRedeemResult × Session)
    (answer : PresenceRedeemResult)
    → Ends (Returned (Spent token_hash)) o
    → o.0 ≡ ok answer
    → Spent token_hash o.1.committed
redeemed-Spent token_hash (ok a, s) answer h p = h.at
redeemed-Spent token_hash (err e, s) answer h p = cc

-- Once a QR token that at most one row has the hash of was redeemed, then after any run of requests
-- that issue no token of the same hash, to redeem it again, for whatever tenant and browser, is
-- refused: it has expired or was used.
pub redeemed_once :
    (services : PresenceServices) (tenant_id : ℕ) (raw_qr_token : String) (cookie : Option String)
    (s : Session)
    → count (has_hash (services.hash_table_access_token raw_qr_token)) s.db.table_access_tokens ≤ 1
    → (answer : PresenceRedeemResult)
    → (redeem_token services tenant_id raw_qr_token cookie s).0 ≡ ok answer
    → (db : Db)
    → PresenceReaches services
        (services.hash_table_access_token raw_qr_token)
        (redeem_token services tenant_id raw_qr_token cookie s).1.committed
        db
    → (tenant_id' : ℕ) (cookie' : Option String) (uuids clock : ℕ → ℕ)
    → ((redeem_token services tenant_id' raw_qr_token cookie' (begin db uuids clock)).0
        ≡ err token_expired)
      ⊎ ((redeem_token services tenant_id' raw_qr_token cookie' (begin db uuids clock)).0
          ≡ err token_consumed)
unfolding consumable_token
redeemed_once services tenant_id raw_qr_token cookie s unique answer accepted db reached tenant_id'
      cookie' uuids clock =
    let token_hash : String = services.hash_table_access_token raw_qr_token in
    let now_spent : Spent token_hash
        (redeem_token services tenant_id raw_qr_token cookie s).1.committed =
      redeemed-Spent token_hash (redeem_token services tenant_id raw_qr_token cookie s) answer
        (redeem_token-Ends (IsSpent token_hash) services s.committed
          {P = Returned (Spent token_hash)} (λ s' same. tt) (λ s' h. h) tenant_id raw_qr_token
          cookie s refl
          (λ t found.
            consumed-IsSpent token_hash tenant_id (s.clock s.read) s.db.table_access_tokens t unique
              found))
        accepted in
    refused-Spent services raw_qr_token db (reaches-Spent services token_hash now_spent reached)
      tenant_id' cookie' uuids clock
