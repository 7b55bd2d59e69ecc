-- ===== src/RateLimit/Pipelines.antt =====
-- What the limiter's pipelines leave of a sorted set, whatever fails.
use bank_system.Prelude.{
  ℕ, zero, suc, ◌≤◌, String, str_eq, str_eq_refl, true, false, not, ◌≡◌, refl, sym, ap, ◌∙◌, List,
  [], ◌∷◌, length, take, All,
}
use mathlib.Core.Path.{subst}
use bank_system.Prelude.Sub.{Sub, skip, keep, Sub-filter, length-Sub, filter-All}
use bank_system.Prelude.Int.{ℤ, ltb_ℤ}
use bank_system.Model.{Time}
use bank_system.External.{Result, ok, err}
use bank_system.RateLimit.Sets.{
  Entry, Command, z_rem, Sets, put_set, above, others, perform, perform_all, attempts, SetServer,
  SetServerLaws,
}
use bank_system.RateLimit.{RateLimiterConfig, Formats, second_reply, bound_at, entry_at, pipeline}

-- A command takes none of some entries out of the set of a key.
module _ (k : String) (zs : List Entry) where
  abbrev pub IsMild : Command → Type 0
  IsMild c = (sets : Sets) → Sub zs (sets k) → Sub zs ((perform c sets).1 k)

  perform_all-Sub :
      (cs : List Command) (sets : Sets)
      → All IsMild cs
      → Sub zs (sets k)
      → Sub zs ((perform_all cs sets).1 k)
  unfolding perform_all
  perform_all-Sub [] sets mild h = h
  perform_all-Sub (c ∷ cs) sets (mild, milds) h =
      perform_all-Sub cs (perform c sets).1 milds (mild sets h)

  take-IsMild : (n : ℕ) (l : List Command) → All IsMild l → All IsMild (take n l)
  take-IsMild zero l h = tt
  take-IsMild (suc n) [] h = tt
  take-IsMild (suc n) (x ∷ l) (h, hs) = (h, take-IsMild n l hs)

  attempts-Sub :
      (cs : List Command) (ns : List ℕ) (sets : Sets)
      → All IsMild cs
      → Sub zs (sets k)
      → Sub zs (attempts cs ns sets k)
  unfolding attempts
  attempts-Sub cs [] sets mild h = h
  attempts-Sub cs (n ∷ ns) sets mild h =
      attempts-Sub cs ns _ mild (perform_all-Sub (take n cs) sets (take-IsMild n cs mild) h)

  module _ (z : SetServer) (laws : SetServerLaws z) where
    -- However a pipeline of such commands ends, the entries are left.
    pub exec-Sub :
        (cs : List Command) (s : z.State)
        → All IsMild cs
        → Sub zs (z.sets s k)
        → Sub zs (z.sets (z.exec cs s).1 k)
    exec-Sub cs s mild h = go (z.exec cs s).0 refl
      where
        go : (r : Result (List ℕ)) → (z.exec cs s).0 ≡ r → Sub zs (z.sets (z.exec cs s).1 k)
        go (ok replies) e =
            let (ns, ran) = laws.exec_ok cs s replies e in
            subst (λ sets. Sub zs (sets k)) (sym (ap (λ x. x.1) ran))
              (perform_all-Sub cs _ mild (attempts-Sub cs ns _ mild h))
        go (err e') e =
            let (ns, ran) = laws.exec_err cs s e' e in
            subst (λ sets. Sub zs (sets k)) (sym ran) (attempts-Sub cs ns _ mild h)

  -- A command on another key's set.
  put_set-Sub :
      (key : String) (l : List Entry) (sets : Sets)
      → str_eq k key ≡ false
      → Sub zs (sets k)
      → Sub zs (put_set key l sets k)
  put_set-Sub key l sets e h = rw e h

  module _ (z : SetServer) (f : Formats) (cfg : RateLimiterConfig) (key : String) (now : Time) where
    module _ (e : str_eq k key ≡ false) where
      pub pipeline_elsewhere : All IsMild (pipeline z f cfg key now)
      unfolding perform
      pipeline_elsewhere = (
        λ sets h. put_set-Sub key _ sets e h,
        (λ sets h. h, (λ sets h. put_set-Sub key _ sets e h, (λ sets h. h, tt))),
      )

      pub z_rem_elsewhere : All IsMild (z_rem key (f.format_int now) ∷ [])
      unfolding perform
      z_rem_elsewhere = (λ sets h. put_set-Sub key _ sets e h, tt)

module _ (z : SetServer) (f : Formats) (cfg : RateLimiterConfig) (key : String) (now : Time) where
  abbrev pub live : Sets → List Entry
  live sets = above (bound_at z f cfg now) (sets key)

  pub pipeline_replies :
      (sets : Sets)
      → second_reply (perform_all (pipeline z f cfg key now) sets).0 ≡ length (live sets)
  unfolding perform_all
  pipeline_replies sets = rw (str_eq_refl key) refl

  pub pipeline_sets :
      (sets : Sets)
      → (perform_all (pipeline z f cfg key now) sets).1 key
        ≡ entry_at z f cfg now ∷ others (f.format_int now) (live sets)
  unfolding perform_all
  pipeline_sets sets = rw (str_eq_refl key) refl

module _ (k : String) (zs : List Entry) where
  own-Sub : (l : List Entry) (sets : Sets) → Sub zs l → Sub zs (put_set k l sets k)
  own-Sub l sets h = rw (str_eq_refl k) h

  above-Sub :
      (bound : ℤ) (l : List Entry)
      → All (λ e. ltb_ℤ bound e.score ≡ true) zs
      → Sub zs l
      → Sub zs (above bound l)
  above-Sub bound l high h =
      subst (λ ys. Sub ys (above bound l)) (filter-All _ zs high) (Sub-filter _ h)

  pub others-Sub :
      (name : String) (l : List Entry)
      → All (λ e. not (str_eq e.member name) ≡ true) zs
      → Sub zs l
      → Sub zs (others name l)
  others-Sub name l fresh h =
      subst (λ ys. Sub ys (others name l)) (filter-All _ zs fresh) (Sub-filter _ h)

  module _ (z : SetServer) (f : Formats) (cfg : RateLimiterConfig) (now : Time)
      (fresh : All (λ e. not (str_eq e.member (f.format_int now)) ≡ true) zs) where
    pub z_rem_own : All (IsMild k zs) (z_rem k (f.format_int now) ∷ [])
    unfolding perform
    z_rem_own = (λ sets h. own-Sub _ sets (others-Sub _ _ fresh h), tt)

    module _ (high : All (λ e. ltb_ℤ (bound_at z f cfg now) e.score ≡ true) zs) where
      pub pipeline_own : All (IsMild k zs) (pipeline z f cfg k now)
      unfolding perform
      pipeline_own = (
        λ sets h. own-Sub _ sets (above-Sub (bound_at z f cfg now) _ high h),
        (
          λ sets h. h,
          (λ sets h. own-Sub _ sets (skip (others-Sub _ _ fresh h)), (λ sets h. h, tt)),
        ),
      )

      -- After a pipeline that succeeds, the request's entry is there with the others, and the
      -- count that was replied counted them.
      pub pipeline_counted :
          (laws : SetServerLaws z) (s : z.State) (replies : List ℕ)
          → (z.exec (pipeline z f cfg k now) s).0 ≡ ok replies
          → Sub zs (z.sets s k)
          → (length zs ≤ second_reply replies)
            × Sub (entry_at z f cfg now ∷ zs) (z.sets (z.exec (pipeline z f cfg k now) s).1 k)
      pipeline_counted laws s replies e h =
          let (ns, ran) = laws.exec_ok (pipeline z f cfg k now) s replies e in
          let start = attempts (pipeline z f cfg k now) ns (z.sets s) in
          let left = attempts-Sub k zs (pipeline z f cfg k now) ns (z.sets s) pipeline_own h in
          let here = above-Sub (bound_at z f cfg now) (start k) high left in
          (
            subst (λ n. length zs ≤ n)
                (sym (ap (λ x. second_reply x.0) ran ∙ pipeline_replies z f cfg k now start))
                (length-Sub here),
            subst (Sub (entry_at z f cfg now ∷ zs))
                (sym (ap (λ x. x.1 k) ran ∙ pipeline_sets z f cfg k now start))
                (keep (others-Sub _ _ fresh here)),
          )
