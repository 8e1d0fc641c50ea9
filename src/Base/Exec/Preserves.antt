-- ===== src/Base/Exec/Preserves.antt =====
-- Methods that preserve a predicate of the state, whether they return or raise: a rule for each way
-- to build a method.

use mathlib.Core.Bool.{Bool, true, false}
use ai_security_gateway.Base.Tests.{if◌then◌else◌}
use ai_security_gateway.Base.Result.{Result, ok, err}
use ai_security_gateway.Base.Exec.{Exec, pure, raise, lift, gets, continue_with, ◌>>=◌}

pub record Preserves {E S A : Type 0} (P : S → Type 0) (m : Exec E S A) : Type 0 where
  pub after : (s : S) → P s → P (m s).1

module _ {E S A : Type 0} {P : S → Type 0} where
  pub pure-Preserves : (a : A) → Preserves {E = E} P (pure a)
  pure-Preserves a = record { after = λ s h. h }

  pub raise-Preserves : (e : E) → Preserves {A = A} P (raise e)
  raise-Preserves e = record { after = λ s h. h }

  pub lift-Preserves : (r : Result E A) → Preserves P (lift r)
  lift-Preserves r = record { after = λ s h. h }

  pub gets-Preserves : (f : S → A) → Preserves {E = E} P (gets f)
  gets-Preserves f = record { after = λ s h. h }

  pub if-Preserves :
      (b : Bool) {m n : Exec E S A}
      → Preserves P m
      → Preserves P n
      → Preserves P (if b then m else n)
  if-Preserves true p q = p
  if-Preserves false p q = q

module _ {E S A B : Type 0} {P : S → Type 0} where
  continue-after :
      (r : Result E A) (f : A → Exec E S B) (s : S)
      → ((a : A) → Preserves P (f a))
      → P s
      → P (continue_with r f s).1
  continue-after (ok a) f s k h = (k a).after s h
  continue-after (err e) f s k h = h

  pub bind-Preserves :
      {m : Exec E S A} {f : A → Exec E S B}
      → Preserves P m
      → ((a : A) → Preserves P (f a))
      → Preserves P (m >>= f)
  bind-Preserves {m} {f} p q = record {
    after = λ s h. continue-after (m s).0 f (m s).1 q (p.after s h);
  }
