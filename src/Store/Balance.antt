-- ===== src/Store/Balance.antt =====
-- Balances and the sum of the whole ledger, as rows are appended.
use bank_system.Prelude.{◌≡◌, List, [], ◌∷◌, ◌++◌, ◌==◌, if◌then◌else◌}
use bank_system.Prelude.Int.{ℤ, pos, ◌+ℤ◌, ◌≤ℤ◌, int_laws}
use bank_system.Model.{Uuid, LedgerEntry}
use bank_system.Store.Db.{Db, signed, balance_of}

-- The part of a row in the balance of an account.
abbrev pub share : LedgerEntry ℤ → Uuid → ℤ
share e id = if e.account_id == id then signed e.entry_type e.amount else pos 0

pub balance_of-append :
    (l m : List (LedgerEntry ℤ)) (id : Uuid)
    → balance_of (l ++ m) id ≡ balance_of l id +ℤ balance_of m id
unfolding balance_of
balance_of-append [] m id = omega int_laws
balance_of-append (e ∷ l) m id = rw (balance_of-append l m id) (omega int_laws)

pub balance_of-pair :
    (l : List (LedgerEntry ℤ)) (e f : LedgerEntry ℤ) (id : Uuid)
    → balance_of (l ++ e ∷ f ∷ []) id ≡ balance_of l id +ℤ (share e id +ℤ share f id)
unfolding balance_of
balance_of-pair l e f id = rw (balance_of-append l (e ∷ f ∷ []) id) (omega int_laws)

pub balance_of-single :
    (l : List (LedgerEntry ℤ)) (e : LedgerEntry ℤ) (id : Uuid)
    → balance_of (l ++ e ∷ []) id ≡ balance_of l id +ℤ share e id
unfolding balance_of
balance_of-single l e id = rw (balance_of-append l (e ∷ []) id) (omega int_laws)

-- Credits less debits over all accounts: the money that has been minted.
unfoldable pub circulation : List (LedgerEntry ℤ) → ℤ
circulation [] = pos 0
circulation (e ∷ l) = signed e.entry_type e.amount +ℤ circulation l

pub circulation-append :
    (l m : List (LedgerEntry ℤ)) → circulation (l ++ m) ≡ circulation l +ℤ circulation m
unfolding circulation
circulation-append [] m = omega int_laws
circulation-append (e ∷ l) m = rw (circulation-append l m) (omega int_laws)

-- No account is overdrawn.
abbrev pub IsSolvent : Db → Type 0
IsSolvent db = (id : Uuid) → pos 0 ≤ℤ balance_of db.ledger id
