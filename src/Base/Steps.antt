-- ===== src/Base/Steps.antt =====
-- What a method call that returned has run: its first step returned, and so did the rest after it.
use mathlib.Core.Path.{subst, ◌≡◌, refl}
use native.Mathlib.Omega.{arith}
use blizzard_mock.Base.Monad.{Result, ok, err, Action, ◌>>=◌}

module _ {S E A B : Type 0} (m : Action S E A) (f : A → Action S E B) (s s' : S) (b : B) where
  step_of :
      (r : Result E A) (t : S)
      → m s ≡ (r, t)
      → ((λ _. (r, t)) >>= f) s ≡ (ok b, s')
      → (a : A) × (t1 : S) × (m s ≡ (ok a, t1)) × (f a t1 ≡ (ok b, s'))
  unfolding ◌>>=◌
  step_of (ok a) t reached rest = (a, t, reached, rest)
  step_of (err e) t reached rest = ground arith

  pub returned :
      (m >>= f) s ≡ (ok b, s') → (a : A) × (t : S) × (m s ≡ (ok a, t)) × (f a t ≡ (ok b, s'))
  unfolding ◌>>=◌
  returned e = step_of (m s).0 (m s).1 refl e

  -- The same for a first step that leaves the state as it was, and whose result satisfies `P`.
  pub past :
      {P : S → A → Type 0}
      → ((t : S) (a : A) (t' : S) → m t ≡ (ok a, t') → (t' ≡ t) × P t a)
      → (m >>= f) s ≡ (ok b, s')
      → (a : A) × P s a × (f a s ≡ (ok b, s'))
  past passes e =
      let (a, t, first, rest) = returned e in
      let (same, holds) = passes s a t first in
      (a, holds, subst (λ x. f a x ≡ (ok b, s')) same rest)
