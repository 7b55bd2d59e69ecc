-- ===== src/Store/Atomicity.antt =====
-- `WithTx`: what is left of a transaction, by how it ended.
use bank_system.Prelude.{String, ◌≡◌, refl, [], ◌⊎◌, inl, inr, arith, Option-cases}
use bank_system.Errs.{Error, driver, wrap}
use bank_system.External.{ok, err, Commit, committed, aborted, unknown, Env}
use bank_system.Store.Db.{Db}
use bank_system.Store.Action.{Result-cases, Session, Action, begin, with_tx, auto_commit}

Commit-cases : (c : Commit) → (c ≡ committed) ⊎ ((m : String) × ((c ≡ aborted m) ⊎ (c ≡ unknown m)))
Commit-cases committed = inl refl
Commit-cases (aborted m) = inr (m, inl refl)
Commit-cases (unknown m) = inr (m, inr refl)

module _ (env : Env) {A : Type 0} (fn : Action A) (before : Session) where
  -- Without an error the function has returned none, and its writes are kept.
  pub with_tx_ok :
      {a : A}
      → (with_tx env fn before).0 ≡ ok a
      → (s : Session) × (fn (begin env before) ≡ (ok a, s))
        × ((with_tx env fn before).1.db ≡ s.db)
        × ((with_tx env fn before).1.locks ≡ [])
  unfolding with_tx
  with_tx_ok h = ((fn (begin env before)).1, ground arith, ground arith, ground arith)

  -- What an error of `WithTx` leaves: the tables from before, or, if the COMMIT was carried out and
  -- its reply was lost, the writes of a function that returned no error.
  pub with_tx_err :
      {e : Error}
      → (with_tx env fn before).0 ≡ err e
      → ((with_tx env fn before).1.db ≡ before.db)
        ⊎ ((a : A) × (s : Session) × (m : String) × (fn (begin env before) ≡ (ok a, s))
            × ((with_tx env fn before).1.db ≡ s.db)
            × (env.commit s.calls ≡ unknown m)
            × (e ≡ wrap "commit tx: " (driver m)))
  unfolding with_tx
  with_tx_err h = elim (Option-cases (env.fault before.calls)) [
    | inr (m, faulty) ↦ inl (ground arith)
    | inl healthy ↦ elim (Result-cases (fn (begin env before))) [
      | inr (e', s, failed) ↦ inl (ground arith)
      | inl (a, s, returned) ↦ elim (Commit-cases (env.commit s.calls)) [
        | inl done ↦ absurd (ground arith)
        | inr (m, inl undone) ↦ inl (ground arith)
        | inr (m, inr lost) ↦ inr (a, s, m, returned, ground arith, lost, ground arith)
      ]
    ]
  ]

-- What holds of the tables before, and after the function wherever it returns, holds after the
-- transaction, however that ends.
pub with_tx_elim {ℓ} :
    {A : Type 0} (P : Db → Type ℓ) (env : Env) (fn : Action A) (before : Session)
    → P before.db
    → ((a : A) (s : Session) → fn (begin env before) ≡ (ok a, s) → P s.db)
    → P (with_tx env fn before).1.db
with_tx_elim P env fn before kept moved = go (with_tx env fn before).0 refl
  where
    go : (result : _) → (with_tx env fn before).0 ≡ result → P (with_tx env fn before).1.db
    go (ok a) h = let (s, ran, same, _) = with_tx_ok env fn before h in rw same (moved a s ran)
    go (err e) h = elim (with_tx_err env fn before h) [
      | inl same ↦ rw same kept
      | inr (a, s, _, ran, same, _, _) ↦ rw same (moved a s ran)
    ]

-- A statement that is a transaction of its own reports an error and has left the tables as they
-- were, or it ran, and its writes are kept.
pub auto_commit-cases :
    (env : Env) {A : Type 0} (m : Action A) (s : Session)
    → ((e : Error) × ((auto_commit env m s).0 ≡ err e) × ((auto_commit env m s).1.db ≡ s.db))
      ⊎ ((a : A) × (s1 : Session) × (m s ≡ (ok a, s1)) × ((auto_commit env m s).1.db ≡ s1.db))
unfolding auto_commit
auto_commit-cases env m s = elim (Result-cases (m s)) [
  | inr (e, s1, failed) ↦ inl (e, ground arith, ground arith)
  | inl (a, s1, ran) ↦ elim (Commit-cases (env.commit s1.calls)) [
    | inl done ↦ inr (a, s1, ran, ground arith)
    | inr (t, inl undone) ↦ inl (driver t, ground arith, ground arith)
    | inr (t, inr lost) ↦ inr (a, s1, ran, ground arith)
  ]
]
