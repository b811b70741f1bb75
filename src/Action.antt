-- ===== src/Action.antt =====
-- Methods that change the world and may raise. What was done before a raise stays done, so the
-- state comes back beside the exception too.

pub mod Rules
use globant.Errors.{Exc, Result, ok, err}

abbrev pub Action {ℓ} : Type ℓ → Type ℓ → Type ℓ
Action S A = S → Result A × S

module _ {ℓ} {S A : Type ℓ} where
  abbrev pub pure : A → Action S A
  pure a s = (ok a, s)

  abbrev pub raise : Exc → Action S A
  raise e s = (err e, s)

  -- How an action goes on from an outcome: to its handler, or out.
  abbrev pub handle : Result A → (Exc → Action S A) → Action S A
  handle (ok a) h s = (ok a, s)
  handle (err e) h s = h e s

  -- `try: m` with one handler that takes every `Exception`.
  abbrev pub try_except : Action S A → (Exc → Action S A) → Action S A
  try_except m h s = let (r, s') = m s in handle r h s'

module _ {ℓ} {S A B : Type ℓ} where
  abbrev pub continue : Result A → (A → Action S B) → Action S B
  continue (ok a) f s = f a s
  continue (err e) f s = (err e, s)

  infixl 5 ◌>>=◌ ◌>>◌
  abbrev pub ◌>>=◌ : Action S A → (A → Action S B) → Action S B
  ◌>>=◌ m f s = let (r, s') = m s in continue r f s'

  abbrev pub ◌>>◌ : Action S A → Action S B → Action S B
  m >> n = m >>= λ _. n
