-- ===== src/Fixtures/Limiter.antt =====
-- A concrete server of sorted sets, and concrete formats of numbers, for the tests.
use bank_system.Prelude.{ℕ, zero, suc, String, ◌≡◌, refl, sym, ap, ◌∙◌, text_length, [], arith}
use bank_system.External.{ok}
use bank_system.RateLimit.Sets.{Sets, perform_all, attempts, SetServer, SetServerLaws}
use bank_system.RateLimit.{Formats, FormatsLaws}

-- A server that never fails.
abbrev pub steady : SetServer
steady = record {
  State = Sets;
  sets = λ s. s;
  exec = λ cs s. (ok (perform_all cs s).0, (perform_all cs s).1);
}

pub steady-laws : SetServerLaws steady
unfolding attempts
steady-laws = record {
  exec_ok = λ cs s replies h. ([], ground arith);
  exec_err = λ cs s e h. absurd (cc);
}

-- Whole numbers are doubles, and a number is written in strokes.
abbrev pub strokes : ℕ → String
strokes zero = ""
strokes (suc n) = String.◌∷◌ "1" (strokes n)

length-strokes : (n : ℕ) → text_length (strokes n) ≡ n
length-strokes zero = refl
length-strokes (suc n) = ap suc (length-strokes n)

abbrev pub exact : Formats
exact = record { to_double = λ v. v; format_int = strokes }

pub exact-laws : FormatsLaws exact
exact-laws = record {
  to_double_mono = λ a b h. h;
  format_int_injective = λ m n h. sym (length-strokes m) ∙ ap text_length h ∙ length-strokes n;
}
