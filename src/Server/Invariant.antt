-- ===== src/Server/Invariant.antt =====
-- What every request to the server keeps.
use bank_system.Prelude.{◌≡◌, refl, sym, ◌∙◌, inl, inr, List, [], ◌∷◌}
use mathlib.Core.Path.{subst}
use bank_system.Prelude.Int.{ℤ, int_laws}
use bank_system.Model.{Uuid, TransferRequest}
use bank_system.External.{Decimals, DecimalLaws}
use bank_system.Store.Db.{Db}
use bank_system.Store.Balance.{IsSolvent, circulation, circulation-append}
use bank_system.Store.Consistency.{IsConsistent}
use bank_system.Store.Roster.{IsRoster, add_user-IsRoster, add_account-IsRoster}
use bank_system.Auth.Residue.{HasLeft_elim, add_user-IsConsistent, add_account-IsConsistent}
use bank_system.Transfer.Effect.{IsPosted}
use bank_system.Transfer.Balances.{IsPosted-IsSolvent}
use bank_system.Transfer.Bookkeeping.{IsPosted-IsConsistent}
use bank_system.Server.{
  Route, to_health, to_logout, to_login, to_register, to_transfers, to_accounts, to_balance,
  to_history, to_fund, HttpRequest, Outside, ServerState, serve, serve_all,
}
use bank_system.Server.Change.{IsSignup, IsPayment, IsChange, serve-IsChange}

-- Every row of the books is in order, no account is overdrawn, and users and accounts are unique.
pub record IsSound (db : Db) : Type 0 where
  pub consistent : IsConsistent db
  pub solvent : IsSolvent db
  pub roster : IsRoster db

IsPosted-IsRoster :
    (d : Decimals) (req : TransferRequest d.Decimal) (txn_id : Uuid) (before after : Db)
    → IsPosted d req txn_id before after
    → IsRoster before
    → IsRoster after
IsPosted-IsRoster d req txn_id before after p h = subst IsRoster (sym p.rows) (record {
  ids = h.ids;
  usernames = h.usernames;
  emails = h.emails;
  account_ids = h.account_ids;
  owned = h.owned;
})

IsPosted-circulation :
    (d : Decimals) (req : TransferRequest d.Decimal) (txn_id : Uuid) (before after : Db)
    → IsPosted d req txn_id before after
    → circulation after.ledger ≡ circulation before.ledger
unfolding circulation
IsPosted-circulation d req txn_id before after p = rw (p.rows, circulation-append) (omega int_laws)

-- The money that the tables of a state hold.
abbrev pub money : (o : Outside) → ServerState o → ℤ
money o s = circulation s.world.session.db.ledger

module _ (o : Outside) (laws : DecimalLaws o.decimals) where
  module _ (http : HttpRequest) (s : ServerState o) where
    change_elim :
        (P : Db → Type 0) (route : Route) (after : Db)
        → P s.world.session.db
        → (IsSignup o http s after → P after)
        → (IsPayment o http s after → P after)
        → IsChange o http s route after
        → P after
    change_elim P to_register after same signup payment (inl e) = subst P (sym e) same
    change_elim P to_register after same signup payment (inr h) = signup h
    change_elim P to_transfers after same signup payment (inl e) = subst P (sym e) same
    change_elim P to_transfers after same signup payment (inr h) = payment h
    change_elim P to_health after same signup payment e = subst P (sym e) same
    change_elim P to_logout after same signup payment e = subst P (sym e) same
    change_elim P to_login after same signup payment e = subst P (sym e) same
    change_elim P to_accounts after same signup payment e = subst P (sym e) same
    change_elim P to_balance after same signup payment e = subst P (sym e) same
    change_elim P to_history after same signup payment e = subst P (sym e) same
    change_elim P to_fund after same signup payment e = subst P (sym e) same

    serve_elim :
        (P : Db → Type 0)
        → P s.world.session.db
        → ((after : Db) → IsSignup o http s after → P after)
        → ((after : Db) → IsPayment o http s after → P after)
        → P (serve o http s).1.world.session.db
    serve_elim P same signup payment = elim (serve-IsChange o http s) [
      | inl (route, id, _, change) ↦ change_elim P route _ same (signup _) (payment _) change
      | inr (_, e) ↦ subst P (sym e) same
    ]

    signup-IsSound :
        (after : Db) → IsSignup o http s after → IsSound s.world.session.db → IsSound after
    signup-IsSound after h sound =
        HasLeft_elim o.env o.jwt o.config.jwt_secret o.bcrypt h.body IsSound h.hash _ _ after sound
          (λ u fine i. record {
            consistent = add_user-IsConsistent _ u i.consistent;
            solvent = i.solvent;
            roster = add_user-IsRoster _ u i.roster fine;
          })
          (λ db a fine i. record {
            consistent = add_account-IsConsistent db a i.consistent;
            solvent = i.solvent;
            roster = add_account-IsRoster db a i.roster fine;
          })
          h.left

    signup-circulation :
        (after : Db) → IsSignup o http s after → circulation after.ledger ≡ money o s
    signup-circulation after h =
        HasLeft_elim o.env o.jwt o.config.jwt_secret o.bcrypt h.body
          (λ db. circulation db.ledger ≡ money o s) h.hash _ _ after refl (λ u fine e. e)
          (λ db a fine e. e) h.left

    serve-IsSound :
        IsSound s.world.session.db
        → IsSound (serve o http s).1.world.session.db × (money o (serve o http s).1 ≡ money o s)
    serve-IsSound sound = (
      serve_elim IsSound sound (λ after h. signup-IsSound after h sound)
          (λ after h. record {
            consistent =
                IsPosted-IsConsistent o.decimals h.body h.txn_id _ after h.posted sound.consistent;
            solvent =
                IsPosted-IsSolvent o.decimals h.body h.txn_id _ after laws h.posted sound.solvent;
            roster = IsPosted-IsRoster o.decimals h.body h.txn_id _ after h.posted sound.roster;
          }),
      serve_elim (λ db. circulation db.ledger ≡ money o s) refl signup-circulation
          (λ after h. IsPosted-circulation o.decimals h.body h.txn_id _ after h.posted),
    )

  -- Whatever requests arrive, in whatever order and whatever fails, the books stay in order, no
  -- account is overdrawn, users and accounts stay unique, and the sum of the whole ledger stays
  -- what it was: no request makes money.
  pub serve_all-IsSound :
      (requests : List HttpRequest) (s : ServerState o)
      → IsSound s.world.session.db
      → IsSound (serve_all o requests s).world.session.db
        × (money o (serve_all o requests s) ≡ money o s)
  unfolding serve_all
  serve_all-IsSound [] s sound = (sound, refl)
  serve_all-IsSound (http ∷ rest) s sound =
      let (sound', same) = serve-IsSound http s sound in
      let (sound'', same') = serve_all-IsSound rest (serve o http s).1 sound' in
      (sound'', same' ∙ same)
