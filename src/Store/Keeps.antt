-- ===== src/Store/Keeps.antt =====
-- Invariants of sessions under actions, however they end: one rule for each way to build an action.
use bank_system.Prelude.{List, String, ◌≡◌, refl, sym, ap, ◌∙◌, Bool, Option, none, some}
use mathlib.Core.Path.{subst}
use bank_system.Errs.{Error}
use bank_system.Model.{Uuid}
use bank_system.External.{Result, ok, err, Constraint, Env}
use bank_system.Store.Db.{Db}
use bank_system.Store.Action.{
  Session, Action, pure, raise, gets, ◌>>=◌, raise_if, wrapping, modify, new_uuid, statement,
  enforce,
}

-- `m` keeps `P`, whether it returns or fails.
pub record Keeps {A : Type 0} (P : Session → Type 0) (m : Action A) : Type 0 where
  pub at : (s : Session) → P s → P (m s).1

module _ {A B : Type 0} {P : Session → Type 0} where
  pub Keeps-bind :
      (m : Action A) (f : A → Action B) → Keeps P m → ((a : A) → Keeps P (f a)) → Keeps P (m >>= f)
  unfolding ◌>>=◌
  Keeps-bind m f km kf = record { at = λ s h. go (m s) (km.at s h) }
    where
      go :
          (p : Result A × Session)
          → P p.1
          → P (elim p.0 as (λ _. Result B × Session) [ ok a ↦ f a p.1 | err e ↦ (err e, p.1) ]).1
      go (ok a, s') h = (kf a).at s' h
      go (err e, s') h = h

-- What holds after a failed first step, and after the rest from a first step that succeeded.
pub >>=_after :
    {A B : Type 0} (P : Session → Type 0) (m : Action A) (f : A → Action B) (s : Session)
    → ((e : Error) (s1 : Session) → m s ≡ (err e, s1) → P s1)
    → ((a : A) (s1 : Session) → m s ≡ (ok a, s1) → P (f a s1).1)
    → P ((m >>= f) s).1
unfolding ◌>>=◌
>>=_after {A} {B} P m f s failed returned = go (m s) refl
  where
    go :
        (p : Result A × Session)
        → m s ≡ p
        → P (elim p.0 as (λ _. Result B × Session) [ ok a ↦ f a p.1 | err e ↦ (err e, p.1) ]).1
    go (ok a, s') h = returned a s' h
    go (err e, s') h = failed e s' h

-- A first step that leaves the tables alone.
pub >>=_reads {ℓ} :
    {A B : Type 0} (P : Db → Type ℓ) (d : Db) (m : Action A) (f : A → Action B) (s : Session)
    → (m s).1.db ≡ s.db
    → s.db ≡ d
    → P d
    → ((a : A) (s1 : Session) → m s ≡ (ok a, s1) → s1.db ≡ d → P (f a s1).1.db)
    → P ((m >>= f) s).1.db
unfolding ◌>>=◌
>>=_reads {A} {B} P d m f s reads same kept rest = go (m s) refl
  where
    go :
        (p : Result A × Session)
        → m s ≡ p
        → P (elim p.0 as (λ _. Result B × Session) [ ok a ↦ f a p.1 | err e ↦ (err e, p.1) ]).1.db
    go (ok a, s') h = rest a s' h (sym (ap (λ x. x.1.db) h) ∙ reads ∙ same)
    go (err e, s') h = subst P (sym (sym (ap (λ x. x.1.db) h) ∙ reads ∙ same)) kept

module _ {A : Type 0} {P : Session → Type 0} where
  pub Keeps-pure : (a : A) → Keeps P (pure a)
  unfolding pure
  Keeps-pure a = record { at = λ s h. h }

  pub Keeps-raise : (e : Error) → Keeps P (raise {A = A} e)
  unfolding raise
  Keeps-raise e = record { at = λ s h. h }

  pub Keeps-gets : (f : Session → A) → Keeps P (gets f)
  unfolding gets
  Keeps-gets f = record { at = λ s h. h }

  pub Keeps-wrapping : (p : String) (m : Action A) → Keeps P m → Keeps P (wrapping p m)
  unfolding wrapping
  Keeps-wrapping p m km = record { at = λ s h. km.at s h }

module _ {P : Session → Type 0} where
  pub Keeps-raise_if : (b : Bool) (e : Error) → Keeps P (raise_if b e)
  unfolding raise_if
  Keeps-raise_if b e = record { at = λ s h. h }

  pub Keeps-modify : (f : Session → Session) → ((s : Session) → P s → P (f s)) → Keeps P (modify f)
  unfolding modify
  Keeps-modify f k = record { at = k }

  pub Keeps-enforce : (env : Env) (c : Option Constraint) → Keeps P (enforce env c)
  unfolding enforce
  Keeps-enforce env none = record { at = λ s h. h }
  Keeps-enforce env (some c) = record { at = λ s h. h }

-- The rows that are locked.
abbrev pub Locked : List Uuid → Session → Type 0
Locked l s = s.locks ≡ l

module _ {l : List Uuid} (env : Env) where
  pub Keeps-statement : Keeps (Locked l) (statement env)
  unfolding statement
  Keeps-statement = record { at = λ s h. h }

  pub Keeps-new_uuid : Keeps (Locked l) (new_uuid env)
  unfolding new_uuid
  Keeps-new_uuid = record { at = λ s h. h }

pub ruleset keeps_rules = (
  Keeps-bind, Keeps-pure, Keeps-raise, Keeps-gets, Keeps-wrapping, Keeps-raise_if, Keeps-enforce,
  Keeps-statement, Keeps-new_uuid,
)
