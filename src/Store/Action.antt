-- ===== src/Store/Action.antt =====
-- A call of the store: it has a session, and returns a value or an error with the session that
-- it leaves. `WithTx` is here.
use bank_system.Prelude.{
  ◌≡◌, refl, ◌⊎◌, inl, inr, ℕ, ◌+◌, String, Bool, List, [], ◌∷◌, ◌++◌, Option, none, some, ◌==◌,
  any, if◌then◌else◌,
}
use bank_system.Errs.{Error, driver, wrap}
use bank_system.Model.{Uuid, Time}
use bank_system.External.{Result, ok, err, Constraint, committed, aborted, unknown, Env}
use bank_system.Store.Db.{Db}

-- The tables as the session sees them, the number of calls of the outside so far, the accounts
-- whose rows the open transaction has locked, in the order of the locks, and the value of `now()`,
-- which stands still inside a transaction.
pub record Session : Type 0 where
  pub db : Db
  pub calls : ℕ
  pub locks : List Uuid
  pub clock : Time

abbrev pub Action : Type 0 → Type 0
Action A = Session → Result A × Session

module _ {A : Type 0} where
  unfoldable pub pure : A → Action A
  pure a s = (ok a, s)

  unfoldable pub raise : Error → Action A
  raise e s = (err e, s)

  unfoldable pub gets : (Session → A) → Action A
  gets f s = (ok (f s), s)

infixl 5 ◌>>=◌ ◌>>◌
unfoldable pub ◌>>=◌ : {A B : Type 0} → Action A → (A → Action B) → Action B
◌>>=◌ m f s = let (r, s') = m s in elim r [ ok a ↦ f a s' | err e ↦ (err e, s') ]

abbrev pub ◌>>◌ : {A B : Type 0} → Action A → Action B → Action B
m >> k = m >>= λ _. k

unfoldable pub raise_if : Bool → Error → Action (Unit {0})
raise_if b e s = (if b then err e else ok tt, s)

unfoldable pub modify : (Session → Session) → Action (Unit {0})
modify f s = (ok tt, f s)

-- `if err != nil { return fmt.Errorf("<p>%w", err) }`
unfoldable pub wrapping : {A : Type 0} → String → Action A → Action A
wrapping p m s = let (r, s') = m s in (elim r [ ok a ↦ ok a | err e ↦ err (wrap p e) ], s')

abbrev pub next_call : Session → Session
next_call s = record s { calls = s.calls + 1 }

-- The row lock of `SELECT ... FOR UPDATE`; a row that is locked already is not locked anew.
unfoldable pub add_lock : Uuid → List Uuid → List Uuid
add_lock id l = if any (λ j. j == id) l then l else l ++ id ∷ []

unfoldable pub lock : Uuid → Action (Unit {0})
lock id s = (ok tt, record s { locks = add_lock id s.locks })

module _ (env : Env) where
  -- `uuid.New()`
  unfoldable pub new_uuid : Action Uuid
  new_uuid s = (ok (env.new_uuid s.calls), next_call s)

  -- A statement reaches the server, or fails for a reason of the driver's.
  unfoldable pub statement : Action (Unit {0})
  statement s = (elim (env.fault s.calls) [ none ↦ ok tt | some m ↦ err (driver m) ], next_call s)

  -- A constraint that is violated fails the statement.
  unfoldable pub enforce : Option Constraint → Action (Unit {0})
  enforce none s = (ok tt, s)
  enforce (some c) s = (err (driver (env.violation c)), s)

  -- `tx.Rollback()`: the tables are those from before the BEGIN, and the locks are released.
  abbrev rollback : Session → Session → Session
  rollback before s = record s { db = before.db; locks = [] }

  -- `tx.Commit()`
  unfoldable pub commit : {A : Type 0} → A → Session → Action A
  commit a before s = elim (env.commit s.calls) [
    | committed ↦ (ok a, record (next_call s) { locks = [] })
    | aborted m ↦ (err (wrap "commit tx: " (driver m)), rollback before (next_call s))
    | unknown m ↦ (err (wrap "commit tx: " (driver m)), record (next_call s) { locks = [] })
  ]

  -- The session right after the BEGIN.
  abbrev pub begin : Session → Session
  begin before = record (next_call before) { locks = []; clock = env.now before.calls }

  unfoldable pub with_tx : {A : Type 0} → Action A → Action A
  unfolding commit
  with_tx fn before = elim (env.fault before.calls) [
    | some m ↦ (err (wrap "begin tx: " (driver m)), next_call before)
    | none ↦
        let (r, s) = fn (begin before) in
        elim r [ ok a ↦ commit a before s | err e ↦ (err e, rollback before s) ]
  ]

  -- A statement that changes rows and is a transaction of its own: its COMMIT may fail, and its
  -- reply may be lost.
  unfoldable pub auto_commit : {A : Type 0} → Action A → Action A
  auto_commit m before =
      let (r, s) = m before in
      elim r [
        | err e ↦ (err e, record s { db = before.db })
        | ok a ↦ elim (env.commit s.calls) [
          | committed ↦ (ok a, next_call s)
          | aborted m ↦ (err (driver m), record (next_call s) { db = before.db })
          | unknown m ↦ (err (driver m), next_call s)
        ]
      ]

pub Result-cases :
    {A : Type 0} (p : Result A × Session)
    → ((a : A) × (s : Session) × (p ≡ (ok a, s))) ⊎ ((e : Error) × (s : Session) × (p ≡ (err e, s)))
Result-cases (ok a, s) = inl (a, s, refl)
Result-cases (err e, s) = inr (e, s, refl)
