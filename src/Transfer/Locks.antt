-- ===== src/Transfer/Locks.antt =====
-- The row locks of a transfer are taken in the order of the UUIDs' texts.
use bank_system.Prelude.{
  str_gtb, false, ◌≡◌, ◌≢◌, refl, ap, sym, ◌∙◌, ◌⊎◌, inl, inr, List, [], ◌∷◌, arith,
}
use mathlib.Core.Path.{subst}
use bank_system.Prelude.TextOrder.{str_gtb_asymm, str_gtb_total}
use bank_system.Model.{Uuid, TransferRequest, TransactionStatus, Transaction, LedgerEntry}
use bank_system.External.{Env, Decimals}
use bank_system.Store.Action.{
  Session, ◌>>=◌, add_lock, lock, wrapping, statement, gets, pure, raise,
}
use bank_system.Store.Statements.{
  lock_row, get_account_for_update, get_balance, create_transaction, insert_ledger_entry,
  insert_transaction_row, insert_ledger_row, update_transaction_status,
}
use bank_system.Store.Inversion.{get_account_for_update_ok}
use bank_system.Store.Keeps.{
  >>=_after, Keeps, Locked, keeps_rules, Keeps-bind, Keeps-wrapping, Keeps-modify,
}
use bank_system.Transfer.{lock_order, post_transfer, transfer_roles, transfer_tx}

module _ (env : Env) (d : Decimals) (l : List Uuid) where
  get_balance-Keeps : (id : Uuid) → Keeps (Locked l) (get_balance env d id)
  unfolding get_balance
  get_balance-Keeps id = search keeps_rules

  create_transaction-Keeps :
      (t : Transaction d.Decimal) → Keeps (Locked l) (create_transaction env d t)
  unfolding create_transaction insert_transaction_row
  create_transaction-Keeps t = search (keeps_rules, Keeps-modify) depth 9

  insert_ledger_entry-Keeps :
      (e : LedgerEntry d.Decimal) → Keeps (Locked l) (insert_ledger_entry env d e)
  unfolding insert_ledger_entry insert_ledger_row
  insert_ledger_entry-Keeps e = search (keeps_rules, Keeps-modify) depth 9

  update_transaction_status-Keeps :
      (id : Uuid) (status : TransactionStatus)
      → Keeps (Locked l) (update_transaction_status env id status)
  unfolding update_transaction_status
  update_transaction_status-Keeps id status = search (keeps_rules, Keeps-modify) depth 9

  post_transfer-Keeps :
      (req : TransferRequest d.Decimal) (txn_id : Uuid)
      → Keeps (Locked l) (post_transfer env d req txn_id)
  unfolding post_transfer
  post_transfer-Keeps req txn_id =
      search
        (
          keeps_rules, create_transaction-Keeps, insert_ledger_entry-Keeps,
          update_transaction_status-Keeps,
        )
        depth 9

lock_order_cases :
    (env : Env) (from to : Uuid)
    → (lock_order env from to ≡ (from, to)) ⊎ (lock_order env from to ≡ (to, from))
unfolding lock_order
lock_order_cases env from to = ground arith

-- What holds of the accounts in both orders holds of them in the order of the locks.
pub lock_order_elim :
    (env : Env) (P : Uuid × Uuid → Type 0) (from to : Uuid)
    → P (from, to)
    → P (to, from)
    → P (lock_order env from to)
lock_order_elim env P from to one other = elim (lock_order_cases env from to) [
  | inl same ↦ subst P (sym same) one
  | inr swapped ↦ subst P (sym swapped) other
]

module _ (env : Env) where
  get_account_for_update_locks :
      (id : Uuid) (s : Session)
      → ((get_account_for_update env id s).1.locks ≡ s.locks)
        ⊎ ((get_account_for_update env id s).1.locks ≡ add_lock id s.locks)
  unfolding get_account_for_update lock_row statement wrapping ◌>>=◌ gets lock pure raise
  get_account_for_update_locks id s = ground arith

  get_account_for_update-Keeps :
      (id : Uuid) (l : List Uuid)
      → add_lock id l ≡ l
      → Keeps (Locked l) (get_account_for_update env id)
  get_account_for_update-Keeps id l held = record {
    at = λ s h. elim (get_account_for_update_locks id s) [
      | inl same ↦ same ∙ h
      | inr added ↦ added ∙ (ap (add_lock id) h ∙ held)
    ];
  }

  -- In the order of their texts, with no text after a greater one.
  abbrev pub IsAscending : List Uuid → Type 0
  IsAscending [] = Unit
  IsAscending (x ∷ []) = Unit
  IsAscending (x ∷ y ∷ l) =
      (str_gtb (env.uuid_string x) (env.uuid_string y) ≡ false) × IsAscending (y ∷ l)

  -- The account that is locked first has no greater text.
  pub lock_order_ordered :
      (from to : Uuid)
      → let (first, second) = lock_order env from to in
        str_gtb (env.uuid_string first) (env.uuid_string second) ≡ false
  unfolding lock_order
  lock_order_ordered from to =
      ground (arith, str_gtb_asymm (env.uuid_string from) (env.uuid_string to))

  module _ (from to : Uuid) (differ : from ≢ to) where
    abbrev first : Uuid
    first = (lock_order env from to).0

    abbrev second : Uuid
    second = (lock_order env from to).1

    add_lock-first : add_lock first [] ≡ first ∷ []
    unfolding add_lock
    add_lock-first = refl

    add_lock-second : add_lock second (first ∷ []) ≡ first ∷ second ∷ []
    unfolding add_lock lock_order
    add_lock-second = ground arith

    held_from : add_lock from (first ∷ second ∷ []) ≡ first ∷ second ∷ []
    unfolding add_lock lock_order
    held_from = ground arith

    held_to : add_lock to (first ∷ second ∷ []) ≡ first ∷ second ∷ []
    unfolding add_lock lock_order
    held_to = ground arith

    -- Two transfers between the same accounts lock them in the same order, whichever way the money
    -- goes, if UUIDs have different texts.
    lock_order_comm :
        env.uuid_string from ≢ env.uuid_string to → lock_order env from to ≡ lock_order env to from
    unfolding lock_order
    lock_order_comm texts = ground (
      arith,
      str_gtb_asymm (env.uuid_string from) (env.uuid_string to),
      str_gtb_total (env.uuid_string from) (env.uuid_string to),
    )

    -- The rows that a transfer has locked at any end of its function.
    abbrev pub HasLocked : List Uuid → Type 0
    HasLocked l = (l ≡ []) ⊎ ((l ≡ first ∷ []) ⊎ (l ≡ first ∷ second ∷ []))

    HasLocked-IsAscending : (l : List Uuid) → HasLocked l → IsAscending l
    HasLocked-IsAscending l (inl e) = rw e tt
    HasLocked-IsAscending l (inr (inl e)) = rw e tt
    HasLocked-IsAscending l (inr (inr e)) = rw e (lock_order_ordered from to, tt)

module _ (env : Env) (d : Decimals) (req : TransferRequest d.Decimal) (txn_id : Uuid)
    (differ : req.from_account_id ≢ req.to_account_id) where
  abbrev IsHeld : List Uuid → Type 0
  IsHeld = HasLocked env req.from_account_id req.to_account_id differ

  abbrev one_id : Uuid
  one_id = first env req.from_account_id req.to_account_id differ

  abbrev other_id : Uuid
  other_id = second env req.from_account_id req.to_account_id differ

  locked_one : add_lock one_id [] ≡ one_id ∷ []
  locked_one = add_lock-first env req.from_account_id req.to_account_id differ

  locked_both : add_lock other_id (one_id ∷ []) ≡ one_id ∷ other_id ∷ []
  locked_both = add_lock-second env req.from_account_id req.to_account_id differ

  Keeps-from :
      Keeps (Locked (one_id ∷ other_id ∷ [])) (get_account_for_update env req.from_account_id)
  Keeps-from =
      get_account_for_update-Keeps env req.from_account_id _
        (held_from env req.from_account_id req.to_account_id differ)

  Keeps-to : Keeps (Locked (one_id ∷ other_id ∷ [])) (get_account_for_update env req.to_account_id)
  Keeps-to =
      get_account_for_update-Keeps env req.to_account_id _
        (held_to env req.from_account_id req.to_account_id differ)

  transfer_roles-Keeps : Keeps (Locked (one_id ∷ other_id ∷ [])) (transfer_roles env d req txn_id)
  unfolding transfer_roles
  transfer_roles-Keeps = Keeps-bind _ _ (Keeps-wrapping _ _ Keeps-from) λ from_acct.
      Keeps-bind _ _ (Keeps-wrapping _ _ Keeps-to)
        λ to_acct. search (keeps_rules, get_balance-Keeps, post_transfer-Keeps) depth 12

  transfer_tx-HasLocked :
      (s : Session) → s.locks ≡ [] → IsHeld (transfer_tx env d req txn_id s).1.locks
  unfolding transfer_tx
  transfer_tx-HasLocked s none_held =
      >>=_after (λ s. IsHeld s.locks) (get_account_for_update env one_id) _ s
        (λ e s1 h. elim (get_account_for_update_locks env one_id s) [
          | inl same ↦ inl ((ap (λ x. x.1.locks) (sym h) ∙ same) ∙ none_held)
          | inr added ↦ inr (
              inl (
                (ap (λ x. x.1.locks) (sym h) ∙ added)
                ∙ (ap (add_lock one_id) none_held ∙ locked_one)))
        ])
        (λ a s1 h.
          let one : s1.locks ≡ one_id ∷ [] =
            (get_account_for_update_ok env one_id s h).3
            ∙ (ap (add_lock one_id) none_held ∙ locked_one) in
          let both : add_lock (other_id) s1.locks ≡ one_id ∷ other_id ∷ [] =
            ap (add_lock _) one ∙ locked_both in
          >>=_after (λ s. IsHeld s.locks) (get_account_for_update env other_id) _ s1
            (λ e s2 k. elim (get_account_for_update_locks env other_id s1) [
              | inl same ↦ inr (inl ((ap (λ x. x.1.locks) (sym k) ∙ same) ∙ one))
              | inr added ↦ inr (inr ((ap (λ x. x.1.locks) (sym k) ∙ added) ∙ both))
            ])
            (λ b s2 k. inr (
              inr (
                transfer_roles-Keeps.at s2
                  ((get_account_for_update_ok env other_id s1 k).3 ∙ both)))))

  -- However the function of a transfer ends, it has locked no row, or the row of the account whose
  -- UUID has the lesser text, or that and then the other account's: never in another order.
  pub transfer_tx-IsAscending :
      (s : Session)
      → s.locks ≡ []
      → HasLocked env req.from_account_id req.to_account_id differ
          (transfer_tx env d req txn_id s).1.locks
        × IsAscending env (transfer_tx env d req txn_id s).1.locks
  transfer_tx-IsAscending s none_held =
      let h = transfer_tx-HasLocked s none_held in
      (h, HasLocked-IsAscending env req.from_account_id req.to_account_id differ _ h)
