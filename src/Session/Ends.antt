-- ===== src/Session/Ends.antt =====
-- What a request leaves committed, by how it ended: one rule for each operation of `Exec`, so that
-- `search` proves such a claim about a service method from the claims about its parts.
use io_tables.Common.{
  arith, is_none, ℕ, suc, ◌≡◌, refl, Bool, true, false, Option, none, some, if◌then◌else◌,
}
use io_tables.Database.{Db}
use io_tables.Errors.{ApiError}
use io_tables.Session.{
  Session, Result, ok, err, Exec, continue, pure, query, raise_if, or_raise, execute, commit,
  rollback, uuid4, utc_now, ◌>>=◌, case_option,
}

abbrev pub is_ok {ℓ} : {A : Type ℓ} → Result A → Bool
is_ok (ok a) = true
is_ok (err e) = false

-- `P true s`: the call returned, and left the session `s`. `P false s`: it raised.
pub record Ends {ℓ} {A : Type ℓ} (P : Bool → Session → Type 0) (o : Result A × Session)
    : Type 0 where
  pub at : P (is_ok o.0) o.1

-- A call that raised has left what was committed as it was.
abbrev pub Untouched : Db → Bool → Session → Type 0
Untouched db true s = Unit
Untouched db false s = s.committed ≡ db

-- However the call ended, what is committed satisfies `P`.
abbrev pub Always : (Db → Type 0) → Bool → Session → Type 0
Always P ended s = P s.committed

module _ {ℓ} {A : Type ℓ} {P : Bool → Session → Type 0} where
  pub Ends-pure : (a : A) (s : Session) → P true s → Ends P (pure a s)
  unfolding pure
  Ends-pure a s h = record { at = h }

  -- `or_raise` as the last call.
  pub Ends-or_raise_last :
      (o : Option A) (e : ApiError) (s : Session) → P true s → P false s → Ends P (or_raise o e s)
  unfolding or_raise
  Ends-or_raise_last none e s yes_ok no_ok = record { at = no_ok }
  Ends-or_raise_last (some a) e s yes_ok no_ok = record { at = yes_ok }

  pub Ends-query_last : (g : Db → A) (s : Session) → P true s → Ends {A = A} P (query g s)
  unfolding query
  Ends-query_last g s h = record { at = h }

  -- `raise e`
  pub Ends-raise : (e : ApiError) (s : Session) → P false s → Ends {A = A} P (or_raise none e s)
  unfolding or_raise
  Ends-raise e s h = record { at = h }

  pub Ends-err : (e : ApiError) (s : Session) → P false s → Ends {A = A} P (err e, s)
  Ends-err e s h = record { at = h }

-- Statements as the last call.
module _ {P : Bool → Session → Type 0} where
  pub Ends-execute_last :
      (g : Db → Db) (s : Session) → P true (record s { db = g s.db }) → Ends P (execute g s)
  unfolding execute
  Ends-execute_last g s h = record { at = h }

  pub Ends-commit_last : (s : Session) → P true (record s { committed = s.db }) → Ends P (commit s)
  unfolding commit
  Ends-commit_last s h = record { at = h }

  pub Ends-raise_if_last :
      (b : Bool) (e : ApiError) (s : Session) → P false s → P true s → Ends P (raise_if b e s)
  unfolding raise_if
  Ends-raise_if_last true e s fails returns = record { at = fails }
  Ends-raise_if_last false e s fails returns = record { at = returns }

module _ {ℓ} {B : Type ℓ} {P : Bool → Session → Type 0} where
  pub Ends-raise_if :
      (b : Bool) (e : ApiError) (s : Session) (f : Unit {0} → Exec B)
      → P false s
      → (b ≡ false → Ends P (f tt s))
      → Ends P ((raise_if b e >>= f) s)
  unfolding ◌>>=◌
  Ends-raise_if true e s f same rest = Ends-err e s same
  Ends-raise_if false e s f same rest = rest refl

  pub Ends-execute :
      (g : Db → Db) (s : Session) (f : Unit {0} → Exec B)
      → Ends P (f tt (record s { db = g s.db }))
      → Ends P ((execute g >>= f) s)
  unfolding ◌>>=◌
  Ends-execute g s f rest = rest

  pub Ends-uuid4 :
      (s : Session) (f : ℕ → Exec B)
      → Ends P (f (s.uuids s.drawn) (record s { drawn = suc s.drawn }))
      → Ends P ((uuid4 >>= f) s)
  unfolding ◌>>=◌
  Ends-uuid4 s f rest = rest

  pub Ends-utc_now :
      (s : Session) (f : ℕ → Exec B)
      → Ends P (f (s.clock s.read) (record s { read = suc s.read }))
      → Ends P ((utc_now >>= f) s)
  unfolding ◌>>=◌
  Ends-utc_now s f rest = rest

  pub Ends-commit :
      (s : Session) (f : Unit {0} → Exec B)
      → Ends P (f tt (record s { committed = s.db }))
      → Ends P ((commit >>= f) s)
  unfolding ◌>>=◌
  Ends-commit s f rest = rest

  pub Ends-rollback :
      (s : Session) (f : Unit {0} → Exec B)
      → Ends P (f tt (record s { db = s.committed }))
      → Ends P ((rollback >>= f) s)
  unfolding ◌>>=◌
  Ends-rollback s f rest = rest

module _ {ℓ} {B : Type ℓ} {P : Bool → Session → Type 0} where
  pub Ends-if :
      (b : Bool) (m n : Exec B) (s : Session)
      → (b ≡ true → Ends P (m s))
      → (b ≡ false → Ends P (n s))
      → Ends P ((if b then m else n) s)
  Ends-if true m n s hm hn = hm refl
  Ends-if false m n s hm hn = hn refl

module _ {ℓ κ} {A : Type ℓ} {B : Type κ} {P : Bool → Session → Type 0} where
  pub Ends-query :
      (g : Db → A) (s : Session) (f : A → Exec B)
      → Ends P (f (g s.db) s)
      → Ends P ((query g >>= f) s)
  unfolding ◌>>=◌
  Ends-query g s f rest = rest

  pub Ends-pure_bind :
      (a : A) (s : Session) (f : A → Exec B) → Ends P (f a s) → Ends P ((pure a >>= f) s)
  unfolding ◌>>=◌
  Ends-pure_bind a s f rest = rest

  pub Ends-or_raise :
      (o : Option A) (e : ApiError) (s : Session) (f : A → Exec B)
      → P false s
      → ((a : A) → o ≡ some a → Ends P (f a s))
      → Ends P ((or_raise o e >>= f) s)
  unfolding ◌>>=◌
  Ends-or_raise none e s f same rest = Ends-err e s same
  Ends-or_raise (some a) e s f same rest = rest a refl

  -- The value is known.
  pub Ends-or_raise_is :
      (o : Option A) (a : A) (e : ApiError) (s : Session) (f : A → Exec B)
      → o ≡ some a
      → Ends P (f a s)
      → Ends P ((or_raise o e >>= f) s)
  unfolding ◌>>=◌
  Ends-or_raise_is o a e s f there rest = rw there rest

  -- The value is there.
  pub Ends-or_raise_found :
      (o : Option A) (e : ApiError) (s : Session) (f : A → Exec B)
      → is_none o ≡ false
      → ((a : A) → o ≡ some a → Ends P (f a s))
      → Ends P ((or_raise o e >>= f) s)
  unfolding ◌>>=◌
  Ends-or_raise_found none e s f there rest = ground arith
  Ends-or_raise_found (some a) e s f there rest = rest a refl

  pub Ends-case_option :
      (o : Option A) (m : Exec B) (f : A → Exec B) (s : Session)
      → (o ≡ none → Ends P (m s))
      → ((a : A) → o ≡ some a → Ends P (f a s))
      → Ends P (case_option o m f s)
  unfolding case_option
  Ends-case_option none m f s hm hf = hm refl
  Ends-case_option (some a) m f s hm hf = hf a refl

  continue-Ends :
      (o : Result A × Session) (f : A → Exec B)
      → Ends P o
      → ((a : A) (s : Session) → o ≡ (ok a, s) → Ends P (f a s))
      → Ends P (continue o f)
  continue-Ends (ok a, s) f h rest = rest a s refl
  continue-Ends (err e, s) f h rest = Ends-err e s h.at

  -- A call whose outcome is known.
  pub Ends-call :
      (m : Exec A) (f : A → Exec B) (s : Session) (a : A) (s' : Session)
      → m s ≡ (ok a, s')
      → Ends P (f a s')
      → Ends P ((m >>= f) s)
  unfolding ◌>>=◌
  Ends-call m f s a s' e rest = rw e rest

  -- Any call before the rest.
  pub Ends-bind :
      (m : Exec A) (f : A → Exec B) (s : Session)
      → Ends P (m s)
      → ((a : A) (s' : Session) → m s ≡ (ok a, s') → Ends P (f a s'))
      → Ends P ((m >>= f) s)
  unfolding ◌>>=◌
  Ends-bind m f s h rest = continue-Ends (m s) f h rest

-- A call that is itself a sequence of calls.
module _ {ℓ κ μ} {A : Type ℓ} {B : Type κ} {C : Type μ} {P : Bool → Session → Type 0} where
  continue-nested :
      (o : Result A × Session) (f : A → Exec B) (g : B → Exec C)
      → Ends P (continue o (λ a s. continue (f a s) g))
      → Ends P (continue (continue o f) g)
  continue-nested (ok a, s) f g h = h
  continue-nested (err e, s) f g h = h

  pub Ends-nested :
      (m : Exec A) (f : A → Exec B) (g : B → Exec C) (s : Session)
      → Ends P ((m >>= λ a. f a >>= g) s)
      → Ends P (((m >>= f) >>= g) s)
  unfolding ◌>>=◌
  Ends-nested m f g s h = continue-nested (m s) f g h

pub Ends-Untouched {ℓ} :
    {A : Type ℓ} {db : Db} (o : Result A × Session) {e : ApiError}
    → Ends (Untouched db) o
    → o.0 ≡ err e
    → o.1.committed ≡ db
Ends-Untouched (ok a, s) h p = cc
Ends-Untouched (err e, s) h p = h.at

-- The call returned with `P` of the open transaction, or raised; nothing was committed.
abbrev pub Pending : (Db → Type 0) → Db → Bool → Session → Type 0
Pending P db true s = (s.committed ≡ db) × P s.db
Pending P db false s = s.committed ≡ db

module _ {ℓ κ} {A : Type ℓ} {B : Type κ} {P : Bool → Session → Type 0} (Q : Db → Type 0)
    (c : Db) where
  continue-Pending :
      (o : Result A × Session) (f : A → Exec B)
      → Ends (Pending Q c) o
      → ((s' : Session) → s'.committed ≡ c → P false s')
      → ((a : A) (s' : Session) → s'.committed ≡ c → Q s'.db → Ends P (f a s'))
      → Ends P (continue o f)
  continue-Pending (ok a, s) f h fails rest = rest a s h.at.0 h.at.1
  continue-Pending (err e, s) f h fails rest = Ends-err e s (fails s h.at)

  -- A call that commits nothing, before the rest.
  pub Ends-Pending :
      (m : Exec A) (f : A → Exec B) (s : Session)
      → Ends (Pending Q c) (m s)
      → ((s' : Session) → s'.committed ≡ c → P false s')
      → ((a : A) (s' : Session) → s'.committed ≡ c → Q s'.db → Ends P (f a s'))
      → Ends P ((m >>= f) s)
  unfolding ◌>>=◌
  Ends-Pending m f s h fails rest = continue-Pending (m s) f h fails rest

module _ {ℓ κ} {A : Type ℓ} {B : Type κ} {P : Bool → Session → Type 0}
    (K : Bool → Session → Type 0) where
  continue-then :
      (o : Result A × Session) (f : A → Exec B)
      → Ends K o
      → ((s' : Session) → K false s' → P false s')
      → ((a : A) (s' : Session) → K true s' → Ends P (f a s'))
      → Ends P (continue o f)
  continue-then (ok a, s) f h fails rest = rest a s h.at
  continue-then (err e, s) f h fails rest = Ends-err e s (fails s h.at)

  -- A call of which `K` is known, before the rest.
  pub Ends-then :
      (m : Exec A) (f : A → Exec B) (s : Session)
      → Ends K (m s)
      → ((s' : Session) → K false s' → P false s')
      → ((a : A) (s' : Session) → K true s' → Ends P (f a s'))
      → Ends P ((m >>= f) s)
  unfolding ◌>>=◌
  Ends-then m f s h fails rest = continue-then (m s) f h fails rest

module _ {ℓ} {A : Type ℓ} {P Q : Bool → Session → Type 0} where
  pub Ends-weaken :
      (o : Result A × Session)
      → Ends P o
      → ((s : Session) → P false s → Q false s)
      → ((s : Session) → P true s → Q true s)
      → Ends Q o
  Ends-weaken (ok a, s) h fails returns = record { at = returns s h.at }
  Ends-weaken (err e, s) h fails returns = record { at = fails s h.at }

-- What raises first is what the request answers.
continue-err {ℓ κ} :
    {A : Type ℓ} {B : Type κ} (o : Result A × Session) (f : A → Exec B) (e : ApiError)
    → o.0 ≡ err e
    → (continue o f).0 ≡ err e
continue-err (ok a, s) f e h = cc
continue-err (err e', s) f e h = cc

pub bind-err {ℓ κ} :
    {A : Type ℓ} {B : Type κ} (m : Exec A) (f : A → Exec B) (s : Session) (e : ApiError)
    → (m s).0 ≡ err e
    → ((m >>= f) s).0 ≡ err e
unfolding ◌>>=◌
bind-err m f s e h = continue-err (m s) f e h

pub utc_now_bind {ℓ} :
    {B : Type ℓ} (f : ℕ → Exec B) (s : Session)
    → (utc_now >>= f) s ≡ f (s.clock s.read) (record s { read = suc s.read })
unfolding ◌>>=◌
utc_now_bind f s = refl

-- The statements and the guards, for `search`.
pub ruleset ends_rules = (
  Ends-pure, Ends-or_raise_last, Ends-raise_if_last, Ends-execute_last, Ends-commit_last,
  Ends-raise_if, Ends-or_raise, Ends-query, Ends-execute, Ends-uuid4, Ends-utc_now, Ends-commit,
  Ends-rollback, Ends-case_option, Ends-if, Ends-nested, Ends-pure_bind, tt, refl,
)
