-- ===== src/Transfer/Idempotency.antt =====
-- A request is carried out at most once: the key in Redis, and the UNIQUE constraint behind it.
use bank_system.Prelude.{
  String, Bool, true, false, ◌≡◌, ◌≢◌, refl, ◌∙◌, ap, sym, ◌⊎◌, inl, inr, arith, none,
}
use bank_system.Errs.{Sentinel, Error, sentinel, wrap}
use bank_system.Model.{Uuid, TransferRequest, TransferResponse}
use bank_system.External.{Result, ok, err, Env, Decimals, Redis, RedisLaws}
use bank_system.Store.Db.{Db, has_key, transaction_violation}
use bank_system.Transfer.{
  World, idempotency_ttl, idempotency_key_of, finish, run_claimed, transfer_funds,
}
use bank_system.Transfer.Outcome.{transfer_funds-IsPosted, transfer_funds_elim}

transaction_violation_key :
    (db : Db) (t : _)
    → transaction_violation db t ≡ none
    → has_key t.idempotency_key db.transactions ≡ false
unfolding transaction_violation
transaction_violation_key db t h = ground arith

module _ (r : Redis) (env : Env) (d : Decimals) (req : TransferRequest d.Decimal) where
  -- The refusal of a request whose key is taken, or of one that Redis gives no answer on.
  abbrev pub IsRefusal : Result TransferResponse → Type 0
  IsRefusal result =
      (result ≡ err (sentinel Sentinel.duplicate_transaction))
      ⊎ ((e : Error) × (result ≡ err (wrap "redis idempotency check: " e)))

  abbrev claim : World r.State → Result Bool × r.State
  claim w = r.set_nx (idempotency_key_of env d req) "processing" idempotency_ttl w.redis

  run_claimed-taken :
      (reply : Result Bool) (w : World r.State)
      → reply ≢ ok true
      → ((run_claimed r env d req reply w).1.session ≡ w.session)
        × IsRefusal (run_claimed r env d req reply w).0
  unfolding run_claimed
  run_claimed-taken (ok true) w h = absurd (h refl)
  run_claimed-taken (ok false) w h = (refl, inl refl)
  run_claimed-taken (err e) w h = (refl, inr (e, refl))

  pub transfer_funds-valid :
      (w : World r.State)
      → req.from_account_id ≢ req.to_account_id
      → d.is_positive req.amount ≡ true
      → transfer_funds r env d req w
        ≡ run_claimed r env d req (claim w).0 (record w { redis = (claim w).1 })
  unfolding transfer_funds
  transfer_funds-valid w differ positive = ground arith

  -- While the key of a valid request is in Redis, the request is refused and the tables stay as
  -- they are.
  transfer_funds-taken :
      RedisLaws r
      → (w : World r.State) → req.from_account_id ≢ req.to_account_id
      → d.is_positive req.amount ≡ true
      → r.exists (idempotency_key_of env d req) w.redis ≡ true
      → ((transfer_funds r env d req w).1.session ≡ w.session)
        × IsRefusal (transfer_funds r env d req w).0
  transfer_funds-taken laws w differ positive taken =
      rw (transfer_funds-valid w differ positive)
        (run_claimed-taken _ _ λ claimed. let free = laws.set_nx_reply _ _ _ _ true claimed in cc)

  finish_sets :
      (key : String) (txn_id : Uuid) (result : Result (Unit {0})) (w : World r.State)
      {resp : TransferResponse} {w' : World r.State}
      → finish r env d key txn_id result w ≡ (ok resp, w')
      → w'.redis ≡ (r.set key (env.uuid_string txn_id) idempotency_ttl w.redis).1
  unfolding finish
  finish_sets key txn_id (ok _) w h = ground arith
  finish_sets key txn_id (err e) w h = absurd (cc)

  finish_deletes :
      (key : String) (txn_id : Uuid) (result : Result (Unit {0})) (w : World r.State) {e : Error}
      {w' : World r.State}
      → finish r env d key txn_id result w ≡ (err e, w')
      → w'.redis ≡ (r.del key w.redis).1
  unfolding finish
  finish_deletes key txn_id (ok _) w h = absurd (cc)
  finish_deletes key txn_id (err e) w h = ground arith

  run_claimed-ok_exists :
      RedisLaws r
      → (reply : Result Bool) (w : World r.State) {resp : TransferResponse} {w' : World r.State}
      → (reply ≡ ok true → r.exists (idempotency_key_of env d req) w.redis ≡ true)
      → run_claimed r env d req reply w ≡ (ok resp, w')
      → r.exists (idempotency_key_of env d req) w'.redis ≡ true
  unfolding run_claimed
  run_claimed-ok_exists laws (err e) w held h = absurd (cc)
  run_claimed-ok_exists laws (ok false) w held h = absurd (cc)
  run_claimed-ok_exists laws (ok true) w held h =
      rw (finish_sets _ _ _ _ h) (laws.set_exists _ _ _ _ (held refl))

  -- A request that was carried out is refused when it comes again, before anything else has reached
  -- Redis, and the tables stay as the first one left them.
  pub transfer_funds_twice :
      RedisLaws r
      → (w : World r.State) {resp : TransferResponse} {w' : World r.State}
      → transfer_funds r env d req w ≡ (ok resp, w')
      → ((transfer_funds r env d req w').1.session ≡ w'.session)
        × IsRefusal (transfer_funds r env d req w').0
  transfer_funds_twice laws w h =
      let (_, _, differ, positive) = transfer_funds-IsPosted r env d req w h in
      transfer_funds-taken laws _ differ positive (
        run_claimed-ok_exists laws (claim w).0 _ (laws.set_nx_exists _ _ _ _ true)
          (sym (transfer_funds-valid w differ positive) ∙ h))

  -- Where DEL works, a valid request that claimed its key and failed gives the key back, so that it
  -- can be sent again.
  transfer_funds_releases :
      RedisLaws r
      → ((k : String) (s : r.State) → (r.del k s).0 ≡ ok tt)
      → (w : World r.State) {e : Error} {w' : World r.State}
      → req.from_account_id ≢ req.to_account_id
      → d.is_positive req.amount ≡ true
      → (claim w).0 ≡ ok true
      → transfer_funds r env d req w ≡ (err e, w')
      → r.exists (idempotency_key_of env d req) w'.redis ≡ false
  unfolding run_claimed
  transfer_funds_releases laws dels w differ positive claimed h =
      let ran = rw claimed at (sym (transfer_funds-valid w differ positive) ∙ h) in
      rw (finish_deletes _ _ _ _ ran) (laws.del_exists _ _ (dels _ _))

  -- Once the tables hold a transaction with the key, no request with that key changes them or
  -- reports success, whatever Redis says: also after a COMMIT whose reply was lost.
  pub transfer_funds-has_key :
      (w : World r.State)
      → has_key req.idempotency_key w.session.db.transactions ≡ true
      → ((transfer_funds r env d req w).1.session.db ≡ w.session.db)
        × ((resp : TransferResponse) → (transfer_funds r env d req w).0 ≢ ok resp)
  transfer_funds-has_key w known = (
    transfer_funds_elim r env d req (λ db. db ≡ w.session.db) w refl
        (λ txn_id after p. absurd (cc (transaction_violation_key _ _ p.insertable))),
    λ resp h.
        let (p, _, _, _) =
          transfer_funds-IsPosted r env d req w
            (ap (λ x. (x, (transfer_funds r env d req w).1)) h) in
        cc (transaction_violation_key _ _ p.insertable),
  )
