-- ===== src/Transfer/Verdict/Answer.antt =====
-- The answer of `TransferFunds` where no call of the outside fails.
use bank_system.Prelude.{
  ◌≡◌, ◌≢◌, refl, sym, ap, ◌∙◌, inl, inr, Bool, true, false, not, Option, none, some, arith,
  Bool-cases, if◌then◌else◌, ◌==◌, String,
}
use bank_system.Errs.{Sentinel, sentinel, wrap, Error}
use bank_system.Model.{Uuid, TransferRequest, TransferResponse}
use bank_system.External.{Result, ok, err, Env, Decimals, Redis}
use bank_system.Store.Db.{Db}
use bank_system.Store.Action.{Session, Action, begin, with_tx}
use bank_system.Store.Runs.{IsCalm, new_uuid_run}
use bank_system.Transfer.{
  World, transfer_response, transfer_tx, idempotency_key_of, idempotency_ttl, finish, run_claimed,
  transfer_funds,
}
use bank_system.Transfer.Idempotency.{transfer_funds-valid}
use bank_system.Transfer.Allowed.{IsFresh}
use bank_system.Transfer.Success.{transfer_funds_succeeds}
use bank_system.Transfer.Verdict.{refusal, refusal_of-none}
use bank_system.Transfer.Verdict.Refused.{transfer_tx_refused}

err_same : {A : Type 0} {e f : Error} → ◌≡◌ {A = Result A} (err e) (err f) → e ≡ f
err_same h = cc

module _ (r : Redis) (env : Env) (d : Decimals) (req : TransferRequest d.Decimal) where
  abbrev pub reply_of : Uuid → Option Error → Result TransferResponse
  reply_of txn_id none = ok (transfer_response txn_id)
  reply_of txn_id (some e) = err e

  abbrev pub claimed_verdict : Uuid → Db → Result Bool → Result TransferResponse
  claimed_verdict txn_id db (err e) = err (wrap "redis idempotency check: " e)
  claimed_verdict txn_id db (ok false) = err (sentinel Sentinel.duplicate_transaction)
  claimed_verdict txn_id db (ok true) = reply_of txn_id (refusal env d req db txn_id)

  -- The answer, from the request, the reply of SETNX and the tables.
  abbrev pub verdict : World r.State → Result TransferResponse
  verdict w =
      if req.from_account_id == req.to_account_id
      then err (sentinel Sentinel.same_account)
      else if not (d.is_positive req.amount)
      then err (sentinel Sentinel.invalid_amount)
      else claimed_verdict (env.new_uuid w.session.calls) w.session.db
          (r.set_nx (idempotency_key_of env d req) "processing" idempotency_ttl w.redis).0

  module _ (calm : IsCalm env) where
    with_tx_refused :
        {A : Type 0} (fn : Action A) (s : Session) {e : Error}
        → (fn (begin env s)).0 ≡ err e
        → (with_tx env fn s).0 ≡ err e
    unfolding with_tx
    with_tx_refused fn s h = let f = calm.faultless s.calls in ground arith

    finish_err :
        (key : String) (txn_id : Uuid) (result : Result (Unit {0})) (w : World r.State) (e : Error)
        → result ≡ err e
        → (finish r env d key txn_id result w).0 ≡ err e
    unfolding finish
    finish_err key txn_id (ok _) w e h = absurd (cc)
    finish_err key txn_id (err e') w e h = ap err (err_same h)

    run_claimed_err :
        (w : World r.State) (e : Error)
        → refusal env d req w.session.db (env.new_uuid w.session.calls) ≡ some e
        → (run_claimed r env d req (ok true) w).0 ≡ err e
    unfolding run_claimed
    run_claimed_err w e h =
        let drawn = new_uuid_run env calm w.session in
        finish_err _ _ _ _ e (
          with_tx_refused (transfer_tx env d req (env.new_uuid w.session.calls)) _ (
            transfer_tx_refused env calm d req w.session.db _ _ e
              (ap (λ p. p.1.db) drawn.runs ∙ drawn.db) h))

    -- The reply of SETNX leads on.
    goes_by :
        (w : World r.State) (reply : Result Bool)
        → req.from_account_id ≢ req.to_account_id
        → d.is_positive req.amount ≡ true
        → (r.set_nx (idempotency_key_of env d req) "processing" idempotency_ttl w.redis).0 ≡ reply
        → (transfer_funds r env d req w).0
          ≡ (run_claimed r env d req reply (record w {
            redis =
                (r.set_nx (idempotency_key_of env d req) "processing" idempotency_ttl w.redis).1;
          })).0
    goes_by w reply differ positive claimed =
        ap (λ x. x.0) (transfer_funds-valid r env d req w differ positive)
        ∙ ap
            (λ x.
              (run_claimed r env d req x (record w {
                redis =
                    (r.set_nx (idempotency_key_of env d req) "processing" idempotency_ttl
                      w.redis).1;
              })).0)
            claimed

    answer_claimed :
        (w : World r.State) (reply : Result Bool) (o : Option Error)
        → IsFresh env w.session.db
        → req.from_account_id ≢ req.to_account_id
        → d.is_positive req.amount ≡ true
        → (r.set_nx (idempotency_key_of env d req) "processing" idempotency_ttl w.redis).0 ≡ reply
        → refusal env d req w.session.db (env.new_uuid w.session.calls) ≡ o
        → (transfer_funds r env d req w).0
          ≡ claimed_verdict (env.new_uuid w.session.calls) w.session.db reply
    unfolding run_claimed
    answer_claimed w (ok true) none fresh differ positive claimed h =
        transfer_funds_succeeds r env d req w calm fresh
          (refusal_of-none env d req w.session.db (env.new_uuid w.session.calls) _ _ refl refl
            differ h)
          positive claimed
        ∙ ap (reply_of (env.new_uuid w.session.calls)) (sym h)
    answer_claimed w (ok true) (some e) fresh differ positive claimed h =
        goes_by w (ok true) differ positive claimed
        ∙ run_claimed_err _ e h
        ∙ ap (reply_of (env.new_uuid w.session.calls)) (sym h)
    answer_claimed w (ok false) o fresh differ positive claimed h =
        goes_by w (ok false) differ positive claimed
    answer_claimed w (err e) o fresh differ positive claimed h =
        goes_by w (err e) differ positive claimed

  -- Where no call of the database fails and the drawn UUIDs are new, what `TransferFunds` answers
  -- is decided from the request, the reply of SETNX and the tables: equal accounts, an amount that
  -- is not positive, a failed or refused SETNX, an account that is missing, a sender or a receiver
  -- that is not active, a balance below the amount and a row that violates a constraint are told
  -- in this order; and if there is none of these, the transfer has succeeded.
  pub transfer_funds-verdict :
      (w : World r.State)
      → IsCalm env
      → IsFresh env w.session.db
      → (transfer_funds r env d req w).0 ≡ verdict w
  unfolding transfer_funds
  transfer_funds-verdict w calm fresh =
      elim (Bool-cases (req.from_account_id == req.to_account_id)) [
        | inl same ↦ ground arith
        | inr other ↦ elim (Bool-cases (d.is_positive req.amount)) [
          | inr not_positive ↦ ground arith
          | inl positive ↦
              answer_claimed calm w _ _ fresh (ground arith) positive refl refl
              ∙ at_end other positive
        ]
      ]
    where
      at_end :
          (req.from_account_id == req.to_account_id) ≡ false
          → d.is_positive req.amount ≡ true
          → claimed_verdict
              (env.new_uuid w.session.calls)
              w.session.db
              (r.set_nx (idempotency_key_of env d req) "processing" idempotency_ttl w.redis).0
            ≡ verdict w
      at_end other positive = rw (other, positive) refl
