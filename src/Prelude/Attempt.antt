-- ===== src/Prelude/Attempt.antt =====
-- Calls that end early: a value to go on with, or how the caller ends.
use mathlib.Core.Path.{◌≡◌, refl}
use jaas.Prelude.Tests.{Result, ok, err}

module _ {E : Type 0} where
  infixl 5 ◌>>=◌
  abbrev pub ◌>>=◌ : {A B : Type 0} → Result E A → (A → Result E B) → Result E B
  ok a >>= f = f a
  err e >>= f = err e

  -- A sequence that goes on to its end is two that do.
  pub bind_ok :
      {A B : Type 0} (m : Result E A) (f : A → Result E B) {b : B}
      → (m >>= f) ≡ ok b
      → (a : A) × (m ≡ ok a) × (f a ≡ ok b)
  bind_ok (ok a) f h = (a, refl, h)
  bind_ok (err e) f h = cc
