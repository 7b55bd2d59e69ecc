-- ===== src/Handler/Accounts/Balances.antt =====
-- What the balance endpoint answers, and to whom.
use bank_system.Prelude.{
  ℕ, String, true, ◌≡◌, refl, sym, ap, ◌∙◌, ◌⊎◌, inl, inr, some, ◌+◌, arith, Option-cases,
}
use mathlib.Core.Path.{subst}
use bank_system.Errs.{Error}
use bank_system.Model.{Uuid, Account, BalanceResponse}
use bank_system.External.{Result, ok, err, Env, Decimals}
use bank_system.Store.Db.{balance_of}
use bank_system.Store.Action.{Session, ◌>>=◌, wrapping, gets}
use bank_system.Store.Queries.{single}
use bank_system.Store.History.{get_balance_read_only}
use bank_system.Auth.Middleware.{Context, user_id_from_ctx, Request, Response, payload, refuse}
use bank_system.Transfer.{World}
use bank_system.Handler.Accounts.{
  Params, Parsers, answer_balance, serve_balance, handle_get_balance,
}
use bank_system.Handler.Accounts.Owned.{is_owned}
use bank_system.Handler.Accounts.Ownership.{Excuse, call_failed, handle_owned_sound}

module _ (env : Env) (d : Decimals) where
  get_balance_read_only_ok :
      (id : Uuid) (s : Session)
      → ((get_balance_read_only env d id s).1.db ≡ s.db)
        × ((b : d.Decimal)
            → (get_balance_read_only env d id s).0 ≡ ok b
            → b ≡ d.from_numeric (balance_of s.db.ledger id))
  unfolding get_balance_read_only single wrapping ◌>>=◌ gets
  get_balance_read_only_ok id s = (ground arith, λ b h. ground arith)

  get_balance_read_only_err :
      (id : Uuid) (s : Session) (e : Error)
      → (get_balance_read_only env d id s).0 ≡ err e
      → (m : String) × (env.fault s.calls ≡ some m)
  unfolding get_balance_read_only single wrapping ◌>>=◌ gets
  get_balance_read_only_err id s e h = elim (Option-cases (env.fault s.calls)) [
    | inl fine ↦ absurd (ground arith)
    | inr failed ↦ failed
  ]

module _ (ps : Parsers) (env : Env) (d : Decimals) (string_fixed_4 : d.Decimal → String)
    {R B : Type 0} (params : Params) (ctx : Context) (req : Request B) (w : World R) where
  -- The balance of an account that the user of the context has, as the ledger has it.
  abbrev pub IsTold : Response BalanceResponse → Type 0
  IsTold answer =
      (id : Uuid) × (account : Account) × (ps.parse_uuid params.id ≡ some id)
      × (account.id ≡ id)
      × (is_owned (user_id_from_ctx ctx) id w.session.db.accounts ≡ true)
      × (answer ≡ record {
        status = 200;
        body = payload (record {
          account_id = id;
          currency = account.currency;
          balance = string_fixed_4 (d.from_numeric (balance_of w.session.db.ledger id));
        });
      })

  abbrev pub IsRefusedWith : Response BalanceResponse → Type 0
  IsRefusedWith answer =
      (status : ℕ) × (text : String) × Excuse ps env params ctx w status
      × (answer ≡ refuse status text)

  answer_balance_cases :
      (id : Uuid) (account : Account) (r : Result d.Decimal)
      → ps.parse_uuid params.id ≡ some id
      → account.id ≡ id
      → is_owned (user_id_from_ctx ctx) id w.session.db.accounts ≡ true
      → ((b : d.Decimal) → r ≡ ok b → b ≡ d.from_numeric (balance_of w.session.db.ledger id))
      → ((e : Error) → r ≡ err e → (m : String) × (env.fault (w.session.calls + 1) ≡ some m))
      → IsTold (answer_balance ps env d string_fixed_4 id account r)
        ⊎ IsRefusedWith (answer_balance ps env d string_fixed_4 id account r)
  unfolding answer_balance
  answer_balance_cases id account (ok b) parsed right own told failed =
      inl (id, account, parsed, right, own, rw (told b refl) refl)
  answer_balance_cases id account (err e) parsed right own told failed =
      let (m, fault) = failed e refl in
      inr (500, "failed to compute balance", call_failed 1 m refl (omega arith) fault, refl)

  -- The balance endpoint changes no table. It tells a user who has the account the balance that the
  -- ledger gives. It refuses only with 400 where the path has no UUID, with 403 a user who does not
  -- have the account, and with 500 where one of its calls of the server has failed.
  pub handle_get_balance_sound :
      let p = handle_get_balance ps env d string_fixed_4 params ctx req w in
      (p.1.session.db ≡ w.session.db) × (IsTold p.0 ⊎ IsRefusedWith p.0)
  unfolding handle_get_balance serve_balance
  handle_get_balance_sound =
      elim (handle_owned_sound ps env (serve_balance ps env d string_fixed_4) params ctx req w) [
        | inl t ↦ (t.db, inr (t.status, t.text, t.excuse, t.answered))
        | inr v ↦
            let (kept, told) = get_balance_read_only_ok env d v.account_id v.session in
            (
              ap (λ s. s.db) v.after ∙ kept ∙ v.same_db,
              subst (λ a. IsTold a ⊎ IsRefusedWith a) (sym v.answered)
                  (answer_balance_cases v.account_id v.account _ v.parsed v.right_account v.owned
                    (subst
                      (λ db.
                        (b : d.Decimal)
                        → (get_balance_read_only env d v.account_id v.session).0 ≡ ok b
                        → b ≡ d.from_numeric (balance_of db.ledger v.account_id))
                      v.same_db told)
                    (λ e h.
                      subst (λ n. (m : String) × (env.fault n ≡ some m)) v.calls
                        (get_balance_read_only_err env d v.account_id v.session e h))),
            )
      ]
