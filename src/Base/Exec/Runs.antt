-- ===== src/Base/Exec/Runs.antt =====
-- Methods that return: the runs of their parts.
use mathlib.Core.Path.{◌≡◌, refl}
use native.Mathlib.Omega.{arith}
use ai_security_gateway.Base.Result.{Result, ok, err}
use ai_security_gateway.Base.Exec.{Exec, continue_with, ◌>>=◌}

module _ {E S A B : Type 0} where
  continue-returns :
      (r : Result E A) (t : S) (f : A → Exec E S B) (b : B) (s' : S)
      → continue_with r f t ≡ (ok b, s')
      → (a : A) × ((r ≡ ok a) × (f a t ≡ (ok b, s')))
  continue-returns (ok a) t f b s' h = (a, (refl, h))
  continue-returns (err e) t f b s' h = ground arith

  pub bind-returns :
      (m : Exec E S A) (f : A → Exec E S B) (s : S) (b : B) (s' : S)
      → (m >>= f) s ≡ (ok b, s')
      → (a : A) × (t : S) × (m s ≡ (ok a, t)) × (f a t ≡ (ok b, s'))
  bind-returns m f s b s' h =
      let (a, (e, k)) = continue-returns (m s).0 (m s).1 f b s' h in
      (a, (m s).1, ground (arith, e), k)
