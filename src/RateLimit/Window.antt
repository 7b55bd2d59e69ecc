-- ===== src/RateLimit/Window.antt =====
-- How one request is decided.
use bank_system.Prelude.{
  ℕ, ◌-◌, ◌<◌, String, true, false, ◌≡◌, refl, sym, ap, ◌∙◌, inl, inr, List, [], ◌∷◌, length, leb,
  not, arith, All, Bool-cases, if◌then◌else◌, str_eq,
}
use mathlib.Core.Path.{subst}
use bank_system.Prelude.Sub.{Sub}
use bank_system.Prelude.Int.{ltb_ℤ}
use bank_system.Model.{Time}
use bank_system.External.{Result, ok, err}
use bank_system.RateLimit.Sets.{Entry, z_rem, perform_all, SetServer, SetServerLaws}
use bank_system.RateLimit.{
  RateLimiterConfig, Formats, second_reply, bound_at, entry_at, pipeline, decide, check,
}
use bank_system.RateLimit.Pipelines.{
  IsMild, live, pipeline_replies, exec-Sub, pipeline_elsewhere, z_rem_elsewhere, pipeline_own,
  z_rem_own, pipeline_counted,
}

module _ (z : SetServer) (f : Formats) (cfg : RateLimiterConfig) (key : String) (now : Time) where
  decide_counts :
      (replies : List ℕ) (s : z.State)
      → (decide z f cfg key now (ok replies) s).0
        ≡ ok (
            if leb cfg.max_requests (second_reply replies)
            then (false, 0)
            else (true, cfg.max_requests - second_reply replies - 1))
  unfolding decide
  decide_counts replies s = elim (Bool-cases (leb cfg.max_requests (second_reply replies))) [
    | inl full ↦ rw (full, decide) refl
    | inr free ↦ rw (free, decide) refl
  ]

  -- Where the pipeline runs once and succeeds, a request is admitted exactly if the key's set has
  -- fewer entries above the bound of the window than the limit, and what remains of the limit then
  -- is what the admitted request leaves of it.
  pub check-live :
      (s : z.State) (replies : List ℕ)
      → (z.exec (pipeline z f cfg key now) s).0 ≡ ok replies
      → (replies, z.sets (z.exec (pipeline z f cfg key now) s).1)
        ≡ perform_all (pipeline z f cfg key now) (z.sets s)
      → let n = length (live z f cfg key now (z.sets s)) in
        (check z f cfg key now s).0
        ≡ ok (if leb cfg.max_requests n then (false, 0) else (true, cfg.max_requests - n - 1))
  unfolding check
  check-live s replies e ran =
      let counted : second_reply replies ≡ length (live z f cfg key now (z.sets s)) =
        ap (λ x. second_reply x.0) ran ∙ pipeline_replies z f cfg key now (z.sets s) in
      ap (λ r. (decide z f cfg key now r (z.exec (pipeline z f cfg key now) s).1).0) e
      ∙ decide_counts replies (z.exec (pipeline z f cfg key now) s).1
      ∙ ap
          (λ n.
            ok (if leb cfg.max_requests n then (false, 0) else (true, cfg.max_requests - n - 1)))
          counted

  decide_admits :
      (r : Result (List ℕ)) (s : z.State) (remaining : ℕ)
      → (decide z f cfg key now r s).0 ≡ ok (true, remaining)
      → (replies : List ℕ) × (r ≡ ok replies)
        × (second_reply replies < cfg.max_requests)
        × ((decide z f cfg key now r s).1 ≡ s)
  unfolding decide
  decide_admits (err e) s remaining h = absurd (cc)
  decide_admits (ok replies) s remaining h =
      elim (Bool-cases (leb cfg.max_requests (second_reply replies))) [
        | inl full ↦ absurd (ground arith)
        | inr free ↦ (replies, refl, ground arith, rw (free, decide) refl)
      ]

  module _ (laws : SetServerLaws z) (k : String) (zs : List Entry) (s : z.State)
      (h : Sub zs (z.sets s k)) where
    decide_left :
        (r : Result (List ℕ)) (s' : z.State)
        → All (IsMild k zs) (z_rem key (f.format_int now) ∷ [])
        → Sub zs (z.sets s' k)
        → Sub zs (z.sets (decide z f cfg key now r s').1 k)
    unfolding decide
    decide_left (err e) s' mild h' = h'
    decide_left (ok replies) s' mild h' =
        elim (Bool-cases (leb cfg.max_requests (second_reply replies))) [
          | inl full ↦ rw (full, decide) (exec-Sub k zs z laws _ s' mild h')
          | inr free ↦ rw (free, decide) h'
        ]

    -- However a request of another key ends, the entries are left.
    pub check_elsewhere : str_eq k key ≡ false → Sub zs (z.sets (check z f cfg key now s).1 k)
    unfolding check
    check_elsewhere e =
        decide_left _ _ (z_rem_elsewhere k zs z f cfg key now e)
          (exec-Sub k zs z laws _ s (pipeline_elsewhere k zs z f cfg key now e) h)

module _ (z : SetServer) (f : Formats) (cfg : RateLimiterConfig) (k : String) (now : Time)
    (laws : SetServerLaws z) (zs : List Entry) (s : z.State) (h : Sub zs (z.sets s k))
    (fresh : All (λ e. not (str_eq e.member (f.format_int now)) ≡ true) zs)
    (high : All (λ e. ltb_ℤ (bound_at z f cfg now) e.score ≡ true) zs) where
  -- However a request ends, the entries of the window are left.
  pub check_left : Sub zs (z.sets (check z f cfg k now s).1 k)
  unfolding check
  check_left =
      decide_left z f cfg k now laws k zs s h _ _ (z_rem_own k zs z f cfg now fresh)
        (exec-Sub k zs z laws _ s (pipeline_own k zs z f cfg now fresh high) h)

  -- An admitted request joins the entries of the window, which were fewer than the limit.
  pub check_admitted :
      (remaining : ℕ)
      → (check z f cfg k now s).0 ≡ ok (true, remaining)
      → (length zs < cfg.max_requests)
        × Sub (entry_at z f cfg now ∷ zs) (z.sets (check z f cfg k now s).1 k)
  unfolding check
  check_admitted remaining e =
      let (replies, ran, few, same) = decide_admits z f cfg k now _ _ remaining e in
      let (counted, joined) = pipeline_counted k zs z f cfg now fresh high laws s replies ran h in
      (omega arith, subst (λ s'. Sub (entry_at z f cfg now ∷ zs) (z.sets s' k)) (sym same) joined)
