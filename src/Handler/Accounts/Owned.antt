-- ===== src/Handler/Accounts/Owned.antt =====
-- The accounts that the store lists for a user.
use bank_system.Prelude.{
  ◌+◌, ◌||◌, String, Bool, true, false, ◌&&◌, ◌≡◌, refl, sym, ap, ◌∙◌, ◌⊎◌, inl, inr, Option, none,
  some, List, [], ◌∷◌, any, find, filter, All, All-imp, ◌==◌, arith, Option-cases, if◌then◌else◌,
}
use mathlib.Core.Path.{subst}
use bank_system.Errs.{Error}
use bank_system.Model.{Uuid, Account}
use bank_system.External.{ok, err, Env}
use bank_system.Store.Action.{Session, ◌>>=◌, wrapping, gets}
use bank_system.Store.Queries.{single}
use bank_system.Store.History.{accounts_of, get_accounts_by_user_id}

-- An account with this id belongs to the user.
abbrev pub is_owned : Uuid → Uuid → List Account → Bool
is_owned user_id id = any (λ b. b.id == id && b.user_id == user_id)

All-cond :
    (P : Account → Type 0) (b : Bool) (a : Account) (l : List Account)
    → (b ≡ true → P a)
    → All P l
    → All P (if b then a ∷ l else l)
All-cond P true a l h hs = (h refl, hs)
All-cond P false a l h hs = hs

pub filter-All_owned :
    (user_id : Uuid) (l : List Account)
    → All (λ a. is_owned user_id a.id l ≡ true) (filter (λ a. a.user_id == user_id) l)
filter-All_owned user_id [] = tt
filter-All_owned user_id (a ∷ l) =
    let rest =
      All-imp (λ b. is_owned user_id b.id l ≡ true) (λ b. is_owned user_id b.id (a ∷ l) ≡ true) _
        (λ b h. ground arith) (filter-All_owned user_id l) in
    All-cond _ (a.user_id == user_id) a _ (λ own. ground arith) rest

found_cases :
    (q : Bool) (b a : Account) (rest : Option Account)
    → (if q then some b else rest) ≡ some a
    → ((q ≡ true) × (b ≡ a)) ⊎ (rest ≡ some a)
found_cases true b a rest e = inl (refl, cc)
found_cases false b a rest e = inr e

pub find-All :
    (P : Account → Type 0) (id : Uuid) (l : List Account) {a : Account}
    → All P l
    → find (λ b. b.id == id) l ≡ some a
    → P a × (a.id ≡ id)
find-All P id [] h e = absurd (cc)
find-All P id (b ∷ l) (h, hs) e = elim (found_cases (b.id == id) b _ _ e) [
  | inl (q, same) ↦ (subst P same h, ap (λ x. x.id) (sym same) ∙ ground arith)
  | inr e' ↦ find-All P id l hs e'
]

pub any-filter_owned :
    (user_id id : Uuid) (l : List Account)
    → any (λ a. a.id == id) (filter (λ a. a.user_id == user_id) l) ≡ is_owned user_id id l
any-filter_owned user_id id [] = refl
any-filter_owned user_id id (a ∷ l) =
    any-cond (a.user_id == user_id) a _
    ∙ ap (λ x. (a.id == id && a.user_id == user_id) || x) (any-filter_owned user_id id l)
  where
    any-cond :
        (b : Bool) (a : Account) (l : List Account)
        → any (λ a. a.id == id) (if b then a ∷ l else l)
          ≡ ((a.id == id && b) || any (λ a. a.id == id) l)
    any-cond true a l = ground arith
    any-cond false a l = ground arith

pub find-any :
    (id : Uuid) (l : List Account)
    → find (λ b. b.id == id) l ≡ none
    → any (λ b. b.id == id) l ≡ false
find-any id [] h = refl
find-any id (b ∷ l) h = ground (arith, find-any id l)

-- A call of the server that is used has failed.
pub get_accounts_by_user_id_err :
    (env : Env) (user_id : Uuid) (s : Session) (e : Error)
    → (get_accounts_by_user_id env user_id s).0 ≡ err e
    → (m : String) × (env.fault s.calls ≡ some m)
unfolding get_accounts_by_user_id single wrapping ◌>>=◌ gets
get_accounts_by_user_id_err env user_id s e h = elim (Option-cases (env.fault s.calls)) [
  | inl fine ↦ absurd (ground arith)
  | inr failed ↦ failed
]

pub get_accounts_by_user_id_ok :
    (env : Env) (user_id : Uuid) (s : Session)
    → ((get_accounts_by_user_id env user_id s).1.db ≡ s.db)
      × ((l : List Account)
          → (get_accounts_by_user_id env user_id s).0 ≡ ok l
          → l ≡ accounts_of (env.rank s.calls) user_id s.db)
unfolding get_accounts_by_user_id single wrapping ◌>>=◌ gets
get_accounts_by_user_id_ok env user_id s = (ground arith, λ l h. ground arith)

pub get_accounts_by_user_id_calls :
    (env : Env) (user_id : Uuid) (s : Session)
    → (get_accounts_by_user_id env user_id s).1.calls ≡ s.calls + 1
unfolding get_accounts_by_user_id single wrapping ◌>>=◌ gets
get_accounts_by_user_id_calls env user_id s = ground arith
