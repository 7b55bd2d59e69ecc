-- ===== src/Concurrent/Progress.antt =====
-- Who can move: the transactions do not wait for each other in a circle.
use bank_system.Prelude.{
  ℕ, ◌≡◌, ◌≢◌, refl, sym, ap, ◌∙◌, ◌<◌, ◌⊎◌, inl, inr, Bool, true, false, not, ◌||◌, ◌&&◌, ◌==◌,
  none, some, arith, Bool-cases, Option-cases, leb,
}
use mathlib.Core.Path.{subst}
use bank_system.Prelude.Below.{true-false, NoneBelow, search_below}
use bank_system.Model.{Uuid, Account}
use bank_system.External.{Env, Decimals}
use bank_system.Store.Db.{Db, transaction_violation, balance_of}
use bank_system.Store.Queries.{is_active}
use bank_system.Store.Statements.{find_account}
use bank_system.Concurrent.{
  opened, is_aborted, is_reading, Phase, waiting_first, waiting_second, locked, checked, writing,
  returned, is_writing, is_over, Thread, System, from_of, to_of, holds, row_of, Passes, meets_ids,
  IsFree, Move, passes, is_refused, inserts, violates, writes, draws_twice, commits,
}
use bank_system.Concurrent.Invariant.{Inv}
use bank_system.Concurrent.Runs.{IsIdle}

-- Both locks, and not over.
abbrev pub is_settled : Phase → Bool
is_settled locked = true
is_settled checked = true
is_settled (writing k) = true
is_settled _ = false

abbrev pub is_halfway : Phase → Bool
is_halfway waiting_second = true
is_halfway _ = false

pub halfway_phase : (p : Phase) → is_halfway p ≡ true → p ≡ waiting_second
halfway_phase waiting_second e = refl
halfway_phase waiting_first e = absurd (cc)
halfway_phase opened e = absurd (cc)
halfway_phase locked e = absurd (cc)
halfway_phase checked e = absurd (cc)
halfway_phase (writing k) e = absurd (cc)
halfway_phase returned e = absurd (cc)

pub open_cases :
    (p : Phase)
    → is_over p ≡ false
    → (p ≡ opened) ⊎ ((p ≡ waiting_first) ⊎ ((is_halfway p ≡ true) ⊎ (is_settled p ≡ true)))
open_cases opened e = inl refl
open_cases waiting_first e = inr (inl refl)
open_cases waiting_second e = inr (inr (inl refl))
open_cases locked e = inr (inr (inr refl))
open_cases checked e = inr (inr (inr refl))
open_cases (writing k) e = inr (inr (inr refl))
open_cases returned e = absurd (cc)

module _ (env : Env) (d : Decimals) (threads : ℕ → Thread d) where
  -- One that has locked a row waits for its second lock, or has both.
  pub holder_cases :
      (j : ℕ) (p : Phase) (id : Uuid)
      → holds env d threads j p id ≡ true
      → (is_halfway p ≡ true) ⊎ (is_settled p ≡ true)
  holder_cases j waiting_second id held = inl refl
  holder_cases j locked id held = inr refl
  holder_cases j checked id held = inr refl
  holder_cases j (writing k) id held = inr refl
  holder_cases j waiting_first id held = absurd (cc)
  holder_cases j opened id held = absurd (cc)
  holder_cases j returned id held = absurd (cc)

  abbrev pub CanMove : ℕ → System → Type 0
  CanMove i s = (t : System) × Move env d threads i s t

  -- A commit is of a transaction that has read nothing that a commit since has written.
  abbrev pub is_clean : (i : ℕ) (s : System) {t : System} → Move env d threads i s t → Bool
  is_clean i s (commits e free) = not (s.stale i)
  is_clean i s _ = true

  abbrev CanMoveClean : ℕ → System → Type 0
  CanMoveClean j s = (t : System) × ((move : Move env d threads j s t) × (is_clean j s move ≡ true))

  abbrev pub SomeCanMove : ℕ → System → Type 0
  SomeCanMove n s = (j : ℕ) × ((j < n) × CanMoveClean j s)

  pub none-some : {A : Type 0} {a : A} → none ≢ some a
  none-some e = cc

  some_same : {A : Type 0} {a b : A} → some a ≡ some b → a ≡ b
  some_same e = cc

  -- The checks on two accounts that are there.
  abbrev pub checks : ℕ → Db → Account → Account → Bool
  checks i db sender receiver =
      is_active sender.status
      && (is_active receiver.status
          && not (
              d.less_than (d.from_numeric (balance_of db.ledger (from_of env d threads i)))
                (threads i).req.amount))

  three : (a b c : Bool) → (a && (b && not c)) ≡ true → (a ≡ true) × ((b ≡ true) × (c ≡ false))
  three a b c e = (ground arith, (ground arith, ground arith))

  three_of : (a b c : Bool) → a ≡ true → b ≡ true → c ≡ false → (a && (b && not c)) ≡ true
  three_of a b c e f g = ground arith

  -- The checks pass, or do not.
  Passes-or : (i : ℕ) (db : Db) → Passes env d threads i db ⊎ ¬ Passes env d threads i db
  Passes-or i db = elim (Option-cases (find_account (from_of env d threads i) db)) [
    | inl lost ↦ inr (λ p. absurd (none-some (sym lost ∙ p.sender_found)))
    | inr (sender, sender_found) ↦ elim (Option-cases (find_account (to_of env d threads i) db)) [
      | inl lost ↦ inr (λ p. absurd (none-some (sym lost ∙ p.receiver_found)))
      | inr (receiver, receiver_found) ↦ elim (Bool-cases (checks i db sender receiver)) [
        | inl good ↦
            let (a, (b, c)) = three _ _ _ good in
            inl (record {
              sender = sender;
              receiver = receiver;
              sender_found = sender_found;
              receiver_found = receiver_found;
              sender_active = a;
              receiver_active = b;
              covered = c;
            })
        | inr bad ↦ inr λ p.
            let e : p.sender ≡ sender = some_same (sym p.sender_found ∙ sender_found) in
            let e' : p.receiver ≡ receiver = some_same (sym p.receiver_found ∙ receiver_found) in
            let good : checks i db p.sender p.receiver ≡ true =
              three_of _ _ _ p.sender_active p.receiver_active p.covered in
            let good' : checks i db sender receiver ≡ true =
              subst (λ y. checks i db sender y ≡ true) e'
                (subst (λ x. checks i db x p.receiver ≡ true) e good) in
            true-false (sym good' ∙ bad)
      ]
    ]
  ]

  module _ (n : ℕ) (s : System) (h : Inv env d threads s) (idle : IsIdle n s) where
    -- A transaction other than a given one passes a test that none passes before it moves, or all
    -- others fail it.
    module _ (i : ℕ) (q : ℕ → Phase → Bool) (idle_fails : (j : ℕ) → q j opened ≡ false) where
      abbrev passes_test : ℕ → Bool
      passes_test j = not (j == i) && q j (s.phase j)

      other_fails : NoneBelow passes_test n → (j : ℕ) → j ≢ i → q j (s.phase j) ≡ false
      other_fails none_below j other = elim (Bool-cases (leb n j)) [
        | inl beyond ↦ ap (q j) (idle j (ground arith)) ∙ idle_fails j
        | inr below ↦ fails_unless (q j (s.phase j)) j i other (none_below j (ground arith))
      ]
        where
          fails_unless : (b : Bool) (k m : ℕ) → k ≢ m → (not (k == m) && b) ≡ false → b ≡ false
          fails_unless b k m other e = ground arith

      search_others :
          ((j : ℕ) × ((j < n) × ((j ≢ i) × (q j (s.phase j) ≡ true))))
          ⊎ ((j : ℕ) → j ≢ i → q j (s.phase j) ≡ false)
      search_others = elim (search_below passes_test n) [
        | inl (j, (less, found)) ↦
            let (other, passed) = both_pass (q j (s.phase j)) j i found in
            inl (j, (less, (other, passed)))
        | inr none_below ↦ inr (other_fails none_below)
      ]
        where
          both_pass : (b : Bool) (k m : ℕ) → (not (k == m) && b) ≡ true → (k ≢ m) × (b ≡ true)
          both_pass b k m e = (λ same. ground arith, ground arith)

    -- Another transaction that has locked a row, or the row is free.
    pub holder_or_IsFree :
        (i : ℕ) (id : Uuid)
        → ((j : ℕ) × ((j < n) × ((j ≢ i) × (holds env d threads j (s.phase j) id ≡ true))))
          ⊎ IsFree env d threads i id s
    holder_or_IsFree i id = search_others i (λ j p. holds env d threads j p id) (λ j. refl)

    writing_moves : (i k : ℕ) → s.phase i ≡ writing k → CanMoveClean i s
    writing_moves i k e = elim (Bool-cases (k == 3)) [
      | inl all ↦
          let done : k ≡ 3 = ground arith in
          elim (Bool-cases (s.stale i || s.excluded i)) [
            | inl touched ↦ (_, (is_aborted (ap is_reading e) touched, refl))
            | inr free ↦ (_, (commits (e ∙ ap (λ m. writing m) done) (ground arith), ground arith))
          ]
      | inr open_ ↦ elim (Bool-cases (meets_ids env d threads i k s.db)) [
        | inl fine ↦ (_, (writes k e (let few = h.few i k e in ground arith) fine, refl))
        | inr twice ↦ (_, (draws_twice k e twice, refl))
      ]
    ]

    writer_moves : (j : ℕ) (p : Phase) → s.phase j ≡ p → is_writing p ≡ true → CanMoveClean j s
    writer_moves j (writing k) e writes_j = writing_moves j k e
    writer_moves j opened e writes_j = absurd (cc)
    writer_moves j waiting_first e writes_j = absurd (cc)
    writer_moves j waiting_second e writes_j = absurd (cc)
    writer_moves j locked e writes_j = absurd (cc)
    writer_moves j checked e writes_j = absurd (cc)
    writer_moves j returned e writes_j = absurd (cc)

    pub settled_moves :
        (i : ℕ) (p : Phase) → i < n → s.phase i ≡ p → is_settled p ≡ true → SomeCanMove n s
    settled_moves i locked less e settled = elim (Passes-or i (s.seen i)) [
      | inl p ↦ (i, (less, (_, (passes e p, refl))))
      | inr not_p ↦ (i, (less, (_, (is_refused e not_p, refl))))
    ]
    settled_moves i (writing k) less e settled = (i, (less, writing_moves i k e))
    settled_moves i checked less e settled =
        elim (Option-cases (transaction_violation s.db (row_of env d threads i))) [
          | inr (broken, found) ↦
              (i, (less, (_, (violates e (λ fine. none-some (sym fine ∙ found)), refl))))
          | inl fine ↦ elim (search_others i (λ j p. is_writing p) (λ j. refl)) [
            | inl (j, (j_less, (other, writes_j))) ↦
                (j, (j_less, writer_moves j (s.phase j) refl writes_j))
            | inr free ↦ (
              i,
              (
                less,
                (
                  _,
                  (
                    inserts e (λ j other writes_j same. true-false (sym writes_j ∙ free j other))
                        fine,
                    refl,
                  ),
                ),
              ),
            )
          ]
        ]
    settled_moves i opened less e settled = absurd (cc)
    settled_moves i waiting_first less e settled = absurd (cc)
    settled_moves i waiting_second less e settled = absurd (cc)
    settled_moves i returned less e settled = absurd (cc)
