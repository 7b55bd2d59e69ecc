-- ===== src/Bank/Refinement.antt =====
-- The calls of the services as moves of the bank.
use bank_system.Prelude.{◌≡◌, refl, ap, true, false, List, [], ◌∷◌}
use bank_system.Model.{TransferRequest, FundRequest, TransferResponse, FundResponse, Uuid}
use bank_system.External.{Result, ok, err, Env, Decimals, DecimalLaws, Redis}
use bank_system.Store.Action.{Session}
use bank_system.Transfer.{World, transfer_funds}
use bank_system.Transfer.Outcome.{transfer_funds-IsPosted, transfer_funds_elim}
use bank_system.Funding.{fund_account}
use bank_system.Funding.Effect.{fund_account_elim, fund_account-IsMinted}
use bank_system.Bank.{
  bank_of, Call, transfer, fund, Move, stays, History, unmoved, moved, is_ok, serve_call,
  serve_calls,
}
use bank_system.Bank.Moves.{IsPosted-Move, IsFunded-Move}

module _ (d : Decimals) (laws : DecimalLaws d) (r : Redis) (env : Env) where
  transfer-Move :
      (req : TransferRequest d.Decimal) (w : World r.State) (result : Result TransferResponse)
      → (transfer_funds r env d req w).0 ≡ result
      → Move d
          (transfer req)
          (is_ok d result)
          (bank_of w.session.db)
          (bank_of (transfer_funds r env d req w).1.session.db)
  transfer-Move req w (ok resp) h =
      IsPosted-Move d _ _ laws req resp.transaction_id true
        (transfer_funds-IsPosted r env d req w
          (ap (λ x. (x, (transfer_funds r env d req w).1)) h)).0
  transfer-Move req w (err e) h =
      transfer_funds_elim r env d req
        (λ db. Move d (transfer req) false (bank_of w.session.db) (bank_of db)) w stays
        (λ txn_id after p. IsPosted-Move d _ after laws req txn_id false p)

  fund-Move :
      (req : FundRequest d.Decimal) (user : Uuid) (s : Session)
      (result : Result (FundResponse d.Decimal))
      → (fund_account env d req user s).0 ≡ result
      → Move d
          (fund req user)
          (is_ok d result)
          (bank_of s.db)
          (bank_of (fund_account env d req user s).1.db)
  fund-Move req user s (ok resp) h =
      IsFunded-Move d _ _ req user _ resp.transaction_id true
        (fund_account-IsMinted env d req user s
          (ap (λ x. (x, (fund_account env d req user s).1)) h)).funded
  fund-Move req user s (err e) h =
      fund_account_elim env d req user
        (λ db. Move d (fund req user) false (bank_of s.db) (bank_of db)) s stays
        (λ system txn_id after p. IsFunded-Move d _ after req user system txn_id false p)

  serve_call-Move :
      (call : Call d) (w : World r.State)
      → let p = serve_call d r env call w in
        Move d call p.0 (bank_of w.session.db) (bank_of p.1.session.db)
  unfolding serve_call
  serve_call-Move (transfer req) w = transfer-Move req w (transfer_funds r env d req w).0 refl
  serve_call-Move (fund req user) w =
      fund-Move req user w.session (fund_account env d req user w.session).0 refl

  -- Any sequence of transfers and fundings is, on the bank that the tables stand for, a sequence of
  -- moves of those calls, whatever fails. A call that reports success has made its move: a transfer
  -- has taken a positive amount that the sender had to another account, under a key that was not
  -- used; a funding has minted a positive amount. A call that reports an error has made its move or
  -- has changed nothing.
  pub serve_calls-History :
      (calls : List (Call d)) (w : World r.State)
      → let p = serve_calls d r env calls w in
        History d p.0 (bank_of w.session.db) (bank_of p.1.session.db)
  unfolding serve_calls
  serve_calls-History [] w = unmoved
  serve_calls-History (call ∷ calls) w =
      moved (serve_call-Move call w) (serve_calls-History calls (serve_call d r env call w).1)
