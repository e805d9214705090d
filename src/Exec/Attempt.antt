-- ===== src/Exec/Attempt.antt =====
-- Code that may raise and has no state: the sequence of two attempts.
use boiler_reviews.Exec.Errors.{Result, ok, err}

infixl 5 ◌>>=◌
abbrev pub ◌>>=◌ : {A B : Type 0} → Result A → (A → Result B) → Result B
ok a >>= f = f a
err e >>= f = err e
