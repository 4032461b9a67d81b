-- ===== src/Ordering/Presence/Decide.antt =====
-- When a token is refused, and as what.
use io_tables.Common.{
  ap, ◌∙◌, Bool-cases, inl, inr, leb, not, ℕ, ◌≤◌, ◌≡◌, suc, String, Bool, true, false, Option,
  none, some, find_sound, Option-cases, count, str_eq, arith, find-sharper_unique,
  find-sharper_none, update-none, if◌then◌else◌, ◌==◌, is_none,
}
use io_tables.Database.{TableAccessToken}
use io_tables.Session.Ends.{bind-err, utc_now_bind}
use io_tables.Errors.{ApiError, token_expired, token_consumed, wrong_table_or_tenant}
use io_tables.Session.{Session, Result, ok, err, ◌>>=◌, case_option}
use io_tables.Ordering.Presence.Queries.{
  consumable_token, token_by_hash, is_consumable, consumed, PresenceServices,
}
use io_tables.Ordering.Presence.Redeem.{refuse_token, consume_token, redeem_token}

-- What becomes of a token, by what is stored of it.
abbrev pub verdict : ℕ → ℕ → Option TableAccessToken → Result TableAccessToken
verdict tenant_id now none = err token_expired
verdict tenant_id now (some t) =
    if leb t.expires_at now
    then err token_expired
    else (if not (is_none t.consumed_at)
        then err token_consumed
        else (if t.tenant_id == tenant_id then ok (consumed now t) else err wrong_table_or_tenant))

module _ (token_hash : String) (tenant_id now : ℕ) (s : Session) (same : s.committed ≡ s.db)
    (unique : count (λ t. str_eq t.token_hash token_hash) s.db.table_access_tokens ≤ 1) where
  consume_token-refused :
      consumable_token tenant_id token_hash now s.db ≡ none
      → (consume_token token_hash tenant_id now s).0 ≡ (refuse_token token_hash now s).0
  unfolding consume_token refuse_token consumable_token token_by_hash case_option ◌>>=◌
  consume_token-refused h = simp (h, update-none)

  consumable_token_unique :
      (t : TableAccessToken)
      → token_by_hash token_hash s.db ≡ some t
      → (b : Bool) → is_consumable tenant_id token_hash now t ≡ b
      → consumable_token tenant_id token_hash now s.db ≡ (if b then some t else none)
  unfolding consumable_token token_by_hash
  consumable_token_unique t found b live =
      find-sharper_unique (λ t. str_eq t.token_hash token_hash)
        (is_consumable tenant_id token_hash now) (λ t h. ground arith) s.db.table_access_tokens t
        unique found
      ∙ ap (λ b. if b then some t else none) live

  consume_token-none :
      token_by_hash token_hash s.db ≡ none
      → (consume_token token_hash tenant_id now s).0 ≡ err token_expired
  unfolding consume_token refuse_token consumable_token token_by_hash case_option ◌>>=◌
  consume_token-none h =
      let gone : consumable_token tenant_id token_hash now s.db ≡ none =
        find-sharper_none (λ t. str_eq t.token_hash token_hash)
          (is_consumable tenant_id token_hash now) (λ t e. ground arith) s.db.table_access_tokens
          h in
      simp (gone, h, update-none)

  refuse_token-found :
      (t : TableAccessToken)
      → token_by_hash token_hash s.db ≡ some t
      → str_eq t.token_hash token_hash ≡ true
      → is_consumable tenant_id token_hash now t ≡ false
      → (refuse_token token_hash now s).0 ≡ verdict tenant_id now (some t)
  unfolding refuse_token token_by_hash ◌>>=◌
  refuse_token-found t h named dead = elim (Bool-cases (leb t.expires_at now)) [
    | inl out ↦ simp (h, out)
    | inr alive ↦ elim (Bool-cases (is_none t.consumed_at)) [
      | inl unused ↦
          let elsewhere : (t.tenant_id == tenant_id) ≡ false = ground arith in
          simp (h, alive, unused, elsewhere)
      | inr used ↦ simp (h, alive, used)
    ]
  ]

  consume_token-found :
      (t : TableAccessToken)
      → token_by_hash token_hash s.db ≡ some t
      → str_eq t.token_hash token_hash ≡ true
      → (consume_token token_hash tenant_id now s).0 ≡ verdict tenant_id now (some t)
  unfolding consume_token case_option ◌>>=◌
  consume_token-found t h named = elim (Bool-cases (is_consumable tenant_id token_hash now t)) [
    | inl live ↦
        let alive : leb t.expires_at now ≡ false = ground arith in
        let unused : is_none t.consumed_at ≡ true = ground arith in
        let here : (t.tenant_id == tenant_id) ≡ true = ground arith in
        simp (consumable_token_unique t h true live, alive, unused, here)
    | inr dead ↦
        rw (consume_token-refused (consumable_token_unique t h false dead))
          (refuse_token-found t h named dead)
  ]

-- Of a token whose hash at most one row has, `consume_token` says that it is expired where there is
-- no such row or its time is over, else that it was used, else that it belongs elsewhere, and else
-- returns the row, marked as used now.
pub consume_token_decides :
    (token_hash : String) (tenant_id now : ℕ) (s : Session)
    → s.committed ≡ s.db
    → count (λ t. str_eq t.token_hash token_hash) s.db.table_access_tokens ≤ 1
    → (consume_token token_hash tenant_id now s).0
      ≡ verdict tenant_id now (token_by_hash token_hash s.db)
unfolding token_by_hash
consume_token_decides token_hash tenant_id now s same unique =
    elim (Option-cases (token_by_hash token_hash s.db)) [
      | inl there ↦ rw there (consume_token-none token_hash tenant_id now s same unique there)
      | inr (t, there) ↦ rw there (
          consume_token-found token_hash tenant_id now s same unique t there
            (find_sound (λ t. str_eq t.token_hash token_hash) s.db.table_access_tokens t there))
    ]

pub redeem_token-refused :
    (services : PresenceServices) (tenant_id : ℕ) (raw_qr_token : String) (cookie : Option String)
    (s : Session) (e : ApiError)
    → s.committed ≡ s.db
    → count
        (λ t. str_eq t.token_hash (services.hash_table_access_token raw_qr_token))
        s.db.table_access_tokens
      ≤ 1
    → verdict tenant_id
        (s.clock s.read)
        (token_by_hash (services.hash_table_access_token raw_qr_token) s.db)
      ≡ err e
    → (redeem_token services tenant_id raw_qr_token cookie s).0 ≡ err e
unfolding redeem_token
redeem_token-refused services tenant_id raw_qr_token cookie s e same unique refused =
    ap (λ o. o.0) (utc_now_bind _ s)
    ∙ bind-err
        (consume_token (services.hash_table_access_token raw_qr_token) tenant_id (s.clock s.read)) _
        _ e
        (consume_token_decides (services.hash_table_access_token raw_qr_token) tenant_id
            (s.clock s.read) (record s { read = suc s.read }) same unique
          ∙ refused)
