-- ===== src/RateLimit/Budget.antt =====
-- What a sequence of requests may use of the limit.
use bank_system.Prelude.{
  ℕ, ◌≤◌, ◌<◌, String, str_eq, str_eq_iff, Bool, true, false, not, ◌&&◌, ◌≡◌, refl, sym, ap, inl,
  inr, List, [], ◌∷◌, length, arith, All, All-imp, if◌then◌else◌, Bool-cases, map,
}
use mathlib.Core.Path.{subst}
use bank_system.Prelude.Sub.{
  Sub, Sub-nil, Sub-refl, Sub-filter_left, length-Sub, All-filter, filter-passes,
}
use bank_system.Prelude.Int.{ℤ, sub_ℕ, ltb_ℤ, ◌≤ℤ◌}
use bank_system.Model.{Time}
use bank_system.External.{Result, ok, err}
use bank_system.RateLimit.Sets.{Entry, above, SetServer, SetServerLaws}
use bank_system.RateLimit.{RateLimiterConfig, Formats, FormatsLaws, bound_at, entry_at, check}
use bank_system.RateLimit.Window.{check_elsewhere, check_left, check_admitted}

-- The key and the time of a request that reaches the limiter.
abbrev pub Arrival : Type 0
Arrival = String × Time

-- The requests come one after the other, each later than the one before.
abbrev pub IsRising : Time → List Arrival → Type 0
IsRising last [] = Unit
IsRising last ((key, now) ∷ rest) = (last < now) × IsRising now rest

abbrev pub last_of : Time → List Arrival → Time
last_of last [] = last
last_of last ((key, now) ∷ rest) = last_of now rest

abbrev pub is_admitted : Result (Bool × ℕ) → Bool
is_admitted (ok (b, remaining)) = b
is_admitted (err e) = false

module _ (z : SetServer) (f : Formats) (cfg : RateLimiterConfig) where
  -- The scores and names of the requests at some times.
  abbrev pub entries : List Time → List Entry
  entries = map (entry_at z f cfg)

  module _ (k : String) where
    -- The limiter's state, and the times of the requests of one key that it has admitted, the last
    -- first.
    abbrev pub Count : Type 0
    Count = z.State × List Time

    unfoldable pub serve : Arrival → Count → Count
    serve (key, now) (s, times) =
        let (r, s') = check z f cfg key now s in
        (s', if is_admitted r && str_eq k key then now ∷ times else times)

    unfoldable pub serve_all : List Arrival → Count → Count
    serve_all [] p = p
    serve_all (a ∷ rest) p = serve_all rest (serve a p)

    -- At the time of the latest request: the admitted requests of the window are in the key's set,
    -- and they are no more than the limit.
    record IsWithin (last : Time) (p : Count) : Type 0 where
      past : All (λ t. t ≤ last) p.1
      kept : Sub (above (bound_at z f cfg last) (entries p.1)) (z.sets p.0 k)
      few : length (above (bound_at z f cfg last) (entries p.1)) ≤ cfg.max_requests

above-above : (b b' : ℤ) (l : List Entry) → b ≤ℤ b' → above b' (above b l) ≡ above b' l
above-above b b' [] h = refl
above-above b b' (e ∷ l) h = ground (arith, above-above b b' l h)

sub_mono : (a b w : ℕ) → a ≤ b → sub_ℕ a w ≤ℤ sub_ℕ b w
sub_mono a b w h = ground arith

module _ (z : SetServer) (f : Formats) (cfg : RateLimiterConfig) (formats : FormatsLaws f) where
  bound_mono : (a b : Time) → a ≤ b → bound_at z f cfg a ≤ℤ bound_at z f cfg b
  bound_mono a b h = formats.to_double_mono _ _ (sub_mono a b cfg.window h)

  later_name : (t now : Time) → t < now → not (str_eq (f.format_int t) (f.format_int now)) ≡ true
  later_name t now h = elim (Bool-cases (str_eq (f.format_int t) (f.format_int now))) [
    | inl same ↦
        let e = formats.format_int_injective t now ((str_eq_iff _ _).0 same) in absurd (omega arith)
    | inr differ ↦ ap not differ
  ]

  fresh_names :
      (now : Time) (times : List Time)
      → All (λ t. t < now) times
      → All (λ e. not (str_eq e.member (f.format_int now)) ≡ true) (entries z f cfg times)
  fresh_names now [] h = tt
  fresh_names now (t ∷ times) (h, hs) = (later_name t now h, fresh_names now times hs)

  is_admitted_lem :
      (r : Result (Bool × ℕ)) → is_admitted r ≡ true → (remaining : ℕ) × (r ≡ ok (true, remaining))
  is_admitted_lem (ok (true, remaining)) h = (remaining, refl)
  is_admitted_lem (ok (false, remaining)) h = absurd (cc)
  is_admitted_lem (err e) h = absurd (cc)

  module _ (k : String) (now : Time) (times : List Time) where
    abbrev window : List Entry
    window = above (bound_at z f cfg now) (entries z f cfg times)

    -- An admitted request joins the window.
    joined :
        (s : z.State)
        → All (λ t. t ≤ now) times
        → Sub window (z.sets s k)
        → Sub (entry_at z f cfg now ∷ window) (z.sets s k)
        → length window < cfg.max_requests
        → IsWithin z f cfg k now (s, now ∷ times)
    joined s past left more few =
        elim (Bool-cases (ltb_ℤ (bound_at z f cfg now) (entry_at z f cfg now).score)) [
          | inl inside ↦ record {
            past = (omega arith, past);
            kept = rw inside more;
            few = rw inside (omega arith);
          }
          | inr outside ↦ record {
            past = (omega arith, past);
            kept = rw outside left;
            few = rw outside (omega arith);
          }
        ]

    if_joined :
        (b : Bool) (s : z.State)
        → (b ≡ true → IsWithin z f cfg k now (s, now ∷ times))
        → IsWithin z f cfg k now (s, times)
        → IsWithin z f cfg k now (s, if b then now ∷ times else times)
    if_joined true s more same = more refl
    if_joined false s more same = same

    module _ (laws : SetServerLaws z) (s : z.State) (before : All (λ t. t < now) times)
        (kept : Sub window (z.sets s k)) (few : length window ≤ cfg.max_requests) where
      serve-IsWithin :
          (key : String) → IsWithin z f cfg k now (serve z f cfg k (key, now) (s, times))
      unfolding serve
      serve-IsWithin key =
          let s' = (check z f cfg key now s).1 in
          let fresh : All (λ e. not (str_eq e.member (f.format_int now)) ≡ true) window =
            All-filter _ _ _ (fresh_names now times before) in
          let high : All (λ e. ltb_ℤ (bound_at z f cfg now) e.score ≡ true) window =
            filter-passes (λ e. ltb_ℤ (bound_at z f cfg now) e.score) (entries z f cfg times) in
          let past = All-imp (λ t. t < now) (λ t. t ≤ now) times (λ t h. omega arith) before in
          let left : Sub window (z.sets s' k) = elim (Bool-cases (str_eq k key)) [
            | inl same ↦
                subst (λ k'. Sub window (z.sets (check z f cfg k' now s).1 k))
                  ((str_eq_iff k key).0 same)
                  (check_left z f cfg k now laws window s kept fresh high)
            | inr differ ↦ check_elsewhere z f cfg key now laws k window s kept differ
          ] in
          if_joined _ s'
            (λ both.
              let (remaining, admitted) =
                is_admitted_lem (check z f cfg key now s).0 (ground arith) in
              let same : k ≡ key = (str_eq_iff k key).0 (ground arith) in
              let (room, more) =
                check_admitted z f cfg k now laws window s kept fresh high remaining (
                  subst (λ k'. (check z f cfg k' now s).0 ≡ ok (true, remaining)) (sym same)
                    admitted) in
              joined s' past left
                (subst
                  (λ k'. Sub (entry_at z f cfg now ∷ window) (z.sets (check z f cfg k' now s).1 k))
                  same more)
                room)
            (record { past = past; kept = left; few = few })

  -- Time passes.
  advance :
      (k : String) (last now : Time) (p : Count z f cfg k)
      → last ≤ now
      → IsWithin z f cfg k last p
      → IsWithin z f cfg k now p
  advance k last now (s, times) h i =
      let slides =
        above-above (bound_at z f cfg last) (bound_at z f cfg now) (entries z f cfg times)
          (bound_mono last now h) in
      let inside = λ (e : Entry). ltb_ℤ (bound_at z f cfg now) e.score in
      let before = above (bound_at z f cfg last) (entries z f cfg times) in
      let fewer = length-Sub (Sub-filter_left inside (Sub-refl before)) in
      record {
        past = All-imp (λ t. t ≤ last) (λ t. t ≤ now) times (λ t b. omega arith) i.past;
        kept = subst (λ l. Sub l (z.sets s k)) slides (Sub-filter_left inside i.kept);
        few = subst (λ l. length l ≤ cfg.max_requests) slides (omega (arith, i.few));
      }

  module _ (laws : SetServerLaws z) (k : String) where
    serve_all-IsWithin :
        (trace : List Arrival) (last : Time) (p : Count z f cfg k)
        → IsRising last trace
        → IsWithin z f cfg k last p
        → IsWithin z f cfg k (last_of last trace) (serve_all z f cfg k trace p)
    unfolding serve_all
    serve_all-IsWithin [] last p h i = i
    serve_all-IsWithin ((key, now) ∷ rest) last (s, times) (later, h) i =
        let a = advance k last now (s, times) (omega arith) i in
        serve_all-IsWithin rest now _ h (
          serve-IsWithin k now times laws s
            (All-imp (λ t. t ≤ last) (λ t. t < now) times (λ t b. omega arith) i.past) a.kept a.few
            key)

    -- Of a sequence of requests of rising times, on any keys and from any state, the limiter admits
    -- no more of one key in a window than the limit, at any time from the last request on and
    -- whatever pipelines fail. A request is in the window whose double is above that of the
    -- window's start; one that is let through since Redis failed is not an admitted one.
    pub serve_all-length :
        (s : z.State) (start now : Time) (trace : List Arrival)
        → IsRising start trace
        → last_of start trace ≤ now
        → length
            (above (bound_at z f cfg now) (entries z f cfg (serve_all z f cfg k trace (s, [])).1))
          ≤ cfg.max_requests
    serve_all-length s start now trace rising late =
        let end =
          serve_all-IsWithin trace start (s, []) rising
            (record { past = tt; kept = Sub-nil _; few = omega arith }) in
        (advance k (last_of start trace) now (serve_all z f cfg k trace (s, [])) late end).few
