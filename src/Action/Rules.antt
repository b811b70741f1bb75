-- ===== src/Action/Rules.antt =====
-- Rules for the outcomes of actions: what holds of the parts gives what holds of the whole.
use globant.Errors.{Exc, Result, ok, err}
use globant.Action.{Action, ◌>>=◌, continue, try_except, handle}

module _ {S A B : Type 0} (f : A → Action S B) (P : Result A → S → Type 0)
    (Q : Result B → S → Type 0)
    (next : (a : A) (s : S) → P (ok a) s → let (r, s') = f a s in Q r s')
    (stop : (e : Exc) (s : S) → P (err e) s → Q (err e) s) where
  continue_rule : (r : Result A) (s : S) → P r s → let (r', s') = continue r f s in Q r' s'
  continue_rule (ok a) s h = next a s h
  continue_rule (err e) s h = stop e s h

module _ {S A B : Type 0} (m : Action S A) (f : A → Action S B) (s : S) (P : Result A → S → Type 0)
    (Q : Result B → S → Type 0) where
  -- After `m`, whose outcome meets `P`, the rest has to meet `Q`.
  pub bind_rule :
      (let (r, s') = m s in P r s')
      → ((a : A) (s' : S) → P (ok a) s' → let (r, s'') = f a s' in Q r s'')
      → ((e : Exc) (s' : S) → P (err e) s' → Q (err e) s')
      → let (r, s') = (m >>= f) s in Q r s'
  bind_rule h next stop = let (r, s') = m s in continue_rule f P Q next stop r s' h

module _ {S A : Type 0} (h : Exc → Action S A) (P Q : Result A → S → Type 0)
    (done : (a : A) (s : S) → P (ok a) s → Q (ok a) s)
    (caught : (e : Exc) (s : S) → P (err e) s → let (r, s') = h e s in Q r s') where
  handle_rule : (r : Result A) (s : S) → P r s → let (r', s') = handle r h s in Q r' s'
  handle_rule (ok a) s p = done a s p
  handle_rule (err e) s p = caught e s p

module _ {S A : Type 0} (m : Action S A) (h : Exc → Action S A) (s : S)
    (P Q : Result A → S → Type 0) where
  pub try_rule :
      (let (r, s') = m s in P r s')
      → ((a : A) (s' : S) → P (ok a) s' → Q (ok a) s')
      → ((e : Exc) (s' : S) → P (err e) s' → let (r, s'') = h e s' in Q r s'')
      → let (r, s') = try_except m h s in Q r s'
  try_rule p done caught = let (r, s') = m s in handle_rule h P Q done caught r s' p
