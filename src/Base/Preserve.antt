-- ===== src/Base/Preserve.antt =====
-- A property of the state that computations keep, whatever they return or raise.
use mathlib.Core.Path.{◌≡◌}
use control_architecture.Base.Outcome.{Result, ok, err, Exec, continue, ◌>>=◌}

unfoldable pub Keeps : {S : Type 0} {E : Type 0} {A : Type 0} → (S → Type 0) → Exec S E A → Type 0
Keeps {S = S} P m = (s : S) → P s → P (m s).1

module _ {S : Type 0} (P : S → Type 0) where
  -- A computation that leaves the state alone.
  pub still-Keeps : {E : Type 0} {A : Type 0} (m : Exec S E A) → ((s : S) → (m s).1 ≡ s) → Keeps P m
  unfolding Keeps
  still-Keeps m h s k = rw (h s) k

  continue-Keeps :
      {E : Type 0} {A : Type 0} {B : Type 0} (r : Result E A) (f : A → Exec S E B)
      → ((a : A) → Keeps P (f a))
      → (s : S) → P s
      → P (continue r f s).1
  unfolding Keeps
  continue-Keeps (ok a) f h s k = h a s k
  continue-Keeps (err e) f h s k = k

  -- One computation, and then another.
  pub seq-Keeps :
      {E : Type 0} {A : Type 0} {B : Type 0} (m : Exec S E A) (f : A → Exec S E B)
      → Keeps P m
      → ((a : A) → Keeps P (f a))
      → Keeps P (m >>= f)
  unfolding Keeps
  seq-Keeps m f h k s p = continue-Keeps (m s).0 f k (m s).1 (h s p)
