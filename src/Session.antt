-- ===== src/Session.antt =====
-- One request's work on the database: the open transaction of its AsyncSession, what has been
-- committed, and the ids (`uuids`, of which
-- `drawn` are used) and clock readings (`clock`, of which `read` are used) that it will draw. A service method is an
-- action that returns or raises; database/session.py commits nothing by itself, so the writes of
-- a request that raises before `commit` are lost.
pub mod Ends
use io_tables.Common.{ℕ, suc, Bool, Option, none, some, if◌then◌else◌}
use io_tables.Database.{Db}
use io_tables.Errors.{ApiError}

pub record Session : Type 0 where
  pub db : Db
  pub committed : Db
  pub uuids : ℕ → ℕ
  pub drawn : ℕ
  pub clock : ℕ → ℕ
  pub read : ℕ

pub data Result {ℓ} (A : Type ℓ) : Type ℓ where
  ok : A → Result A
  err : ApiError → Result A

abbrev pub Exec {ℓ} : Type ℓ → Type ℓ
Exec A = Session → Result A × Session

-- What follows a call, by how the call ended.
abbrev pub continue {ℓ κ} :
    {A : Type ℓ} {B : Type κ} → Result A × Session → (A → Exec B) → Result B × Session
continue (ok a, s) f = f a s
continue (err e, s) f = (err e, s)

module _ {ℓ} {A : Type ℓ} where
  unfoldable pub pure : A → Exec A
  pure a s = (ok a, s)

  -- A select.
  unfoldable pub query : (Db → A) → Exec A
  query f s = (ok (f s.db), s)

  -- `if x is None: raise e`
  unfoldable pub or_raise : Option A → ApiError → Exec A
  or_raise none e s = (err e, s)
  or_raise (some a) e s = (ok a, s)

unfoldable pub raise_if : Bool → ApiError → Exec (Unit {0})
raise_if b e s = if b then (err e, s) else (ok tt, s)

-- An insert, an update or a delete.
unfoldable pub execute : (Db → Db) → Exec (Unit {0})
execute f s = (ok tt, record s { db = f s.db })

unfoldable pub commit : Exec (Unit {0})
commit s = (ok tt, record s { committed = s.db })

unfoldable pub rollback : Exec (Unit {0})
rollback s = (ok tt, record s { db = s.committed })

-- `uuid4()`
unfoldable pub uuid4 : Exec ℕ
uuid4 s = (ok (s.uuids s.drawn), record s { drawn = suc s.drawn })

-- `datetime.now(UTC)`
unfoldable pub utc_now : Exec ℕ
utc_now s = (ok (s.clock s.read), record s { read = suc s.read })

-- To open this opens every operation above.
infixl 5 ◌>>=◌ ◌>>◌
unfoldable pub ◌>>=◌ {ℓ κ} : {A : Type ℓ} {B : Type κ} → Exec A → (A → Exec B) → Exec B
unfolding pure query or_raise raise_if execute commit rollback uuid4 utc_now
◌>>=◌ m f s = continue (m s) f

abbrev pub ◌>>◌ {ℓ} : {B : Type ℓ} → Exec (Unit {0}) → Exec B → Exec B
m >> k = m >>= λ _. k

-- `if x is not None: .. x ..`, and what follows if it is.
unfoldable pub case_option {ℓ κ} :
    {A : Type ℓ} {B : Type κ} → Option A → Exec B → (A → Exec B) → Exec B
case_option none m f = m
case_option (some a) m f = f a

-- The session that a request starts with.
abbrev pub begin : Db → (ℕ → ℕ) → (ℕ → ℕ) → Session
begin db uuids clock = record {
  db = db;
  committed = db;
  uuids = uuids;
  drawn = 0;
  clock = clock;
  read = 0;
}
