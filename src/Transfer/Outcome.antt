-- ===== src/Transfer/Outcome.antt =====
-- `TransferFunds` as a whole: what its result says of the tables.
use bank_system.Prelude.{
  String, Bool, true, false, ◌≡◌, refl, ◌⊎◌, inl, inr, arith, Bool-cases, ◌==◌, ◌≢◌,
}
use bank_system.Errs.{Error, driver, wrap}
use bank_system.Model.{Uuid, TransferRequest, TransferResponse, completed}
use bank_system.External.{Result, ok, err, unknown, Env, Decimals, Redis}
use bank_system.Store.Db.{Db}
use bank_system.Store.Action.{new_uuid}
use bank_system.Store.Atomicity.{with_tx_ok, with_tx_err}
use bank_system.Transfer.{World, transfer_response, finish, run_claimed, transfer_funds}
use bank_system.Transfer.Effect.{IsPosted, transfer_tx-IsPosted}

module _ (r : Redis) (env : Env) (d : Decimals) (req : TransferRequest d.Decimal) where
  -- The rows are there although the caller has an error: the COMMIT was carried out, and its reply
  -- was lost.
  pub record IsLost (e : Error) (before after : Db) : Type 0 where
    pub txn_id : Uuid
    pub calls : _
    pub text : String
    pub posted : IsPosted d req txn_id before after
    pub commit_lost : env.commit calls ≡ unknown text
    pub reported : e ≡ wrap "commit tx: " (driver text)

  finish_ok :
      (key : String) (txn_id : Uuid) (result : Result (Unit {0})) (w : World r.State)
      {resp : TransferResponse} {w' : World r.State}
      → finish r env d key txn_id result w ≡ (ok resp, w')
      → (result ≡ ok tt) × (resp ≡ transfer_response txn_id) × (w'.session ≡ w.session)
  unfolding finish
  finish_ok key txn_id (ok _) w h = ground arith
  finish_ok key txn_id (err e) w h = ground arith

  finish_err :
      (key : String) (txn_id : Uuid) (result : Result (Unit {0})) (w : World r.State) {e : Error}
      {w' : World r.State}
      → finish r env d key txn_id result w ≡ (err e, w')
      → (result ≡ err e) × (w'.session ≡ w.session)
  unfolding finish
  finish_err key txn_id (ok _) w h = ground arith
  finish_err key txn_id (err e) w h = ground arith

  run_claimed_ok :
      (reply : Result Bool) (w : World r.State) {resp : TransferResponse} {w' : World r.State}
      → run_claimed r env d req reply w ≡ (ok resp, w')
      → IsPosted d req resp.transaction_id w.session.db w'.session.db × (resp.status ≡ completed)
  unfolding run_claimed new_uuid
  run_claimed_ok (err e) w h = absurd (cc)
  run_claimed_ok (ok false) w h = absurd (cc)
  run_claimed_ok (ok true) w {w'} h =
      let (returned, response, session) = finish_ok _ _ _ _ h in
      let (s, ran, kept, _) = with_tx_ok env _ _ returned in
      (
        rw (response, session, kept)
            (transfer_tx-IsPosted env d req (env.new_uuid w.session.calls) _ ran),
        rw response,
      )

  run_claimed_err :
      (reply : Result Bool) (w : World r.State) {e : Error} {w' : World r.State}
      → run_claimed r env d req reply w ≡ (err e, w')
      → (w'.session.db ≡ w.session.db) ⊎ IsLost e w.session.db w'.session.db
  unfolding run_claimed new_uuid
  run_claimed_err (err e) w h = inl (ground arith)
  run_claimed_err (ok false) w h = inl (ground arith)
  run_claimed_err (ok true) w {w'} h =
      let (failed, session) = finish_err _ _ _ _ h in
      elim (with_tx_err env _ _ failed) [
        | inl same ↦ inl (rw session same)
        | inr (_, s, m, ran, kept, lost, reported) ↦ inr (record {
          txn_id = env.new_uuid w.session.calls;
          calls = s.calls;
          text = m;
          posted =
              rw (session, kept)
                (transfer_tx-IsPosted env d req (env.new_uuid w.session.calls) _ ran);
          commit_lost = lost;
          reported = reported;
        })
      ]

  -- A transfer that reports success has added its rows to the tables, in a transaction with the id
  -- of the response, whose status, as the response's, is Completed.
  pub transfer_funds-IsPosted :
      (w : World r.State) {resp : TransferResponse} {w' : World r.State}
      → transfer_funds r env d req w ≡ (ok resp, w')
      → IsPosted d req resp.transaction_id w.session.db w'.session.db
        × (resp.status ≡ completed)
        × (req.from_account_id ≢ req.to_account_id)
        × (d.is_positive req.amount ≡ true)
  unfolding transfer_funds
  transfer_funds-IsPosted w h = elim (Bool-cases (req.from_account_id == req.to_account_id)) [
    | inl same ↦ absurd (ground arith)
    | inr differ ↦ elim (Bool-cases (d.is_positive req.amount)) [
      | inr bad ↦ absurd (ground arith)
      | inl good ↦
          let (posted, status) = run_claimed_ok _ _ (rw (differ, good) at h) in
          (posted, status, ground arith, good)
    ]
  ]

  -- A transfer that reports an error has left the tables as they were, or its COMMIT was carried
  -- out and the reply to it was lost.
  pub transfer_funds-err_keeps :
      (w : World r.State) {e : Error} {w' : World r.State}
      → transfer_funds r env d req w ≡ (err e, w')
      → (w'.session.db ≡ w.session.db) ⊎ IsLost e w.session.db w'.session.db
  unfolding transfer_funds
  transfer_funds-err_keeps w h = elim (Bool-cases (req.from_account_id == req.to_account_id)) [
    | inl same ↦ inl (ground arith)
    | inr differ ↦ elim (Bool-cases (d.is_positive req.amount)) [
      | inr bad ↦ inl (ground arith)
      | inl good ↦ run_claimed_err _ _ (rw (differ, good) at h)
    ]
  ]

  -- What holds of the tables before, and of every tables with the rows of the transfer added, holds
  -- after `TransferFunds`, whatever it returns.
  pub transfer_funds_elim {ℓ} :
      (P : Db → Type ℓ) (w : World r.State)
      → P w.session.db
      → ((txn_id : Uuid) (after : Db) → IsPosted d req txn_id w.session.db after → P after)
      → P (transfer_funds r env d req w).1.session.db
  transfer_funds_elim P w same moved = go (transfer_funds r env d req w) refl
    where
      go :
          (p : Result TransferResponse × World r.State)
          → transfer_funds r env d req w ≡ p
          → P p.1.session.db
      go (ok resp, w') h = moved _ _ (transfer_funds-IsPosted w h).0
      go (err e, w') h = elim (transfer_funds-err_keeps w h) [
        | inl kept ↦ rw kept same
        | inr lost ↦ moved _ _ lost.posted
      ]
