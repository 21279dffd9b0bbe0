-- ===== src/Effects/Action.antt =====
-- The action monad: a function of the program reads the trace so far and ends with an outcome and
-- the longer trace. An error or a panic skips the rest and keeps the trace.
use capi_wx_one.Base.{Option, none, some, List, [], ◌∷◌}
use capi_wx_one.Effects.Errors.{Error, Reply, Outcome, ok, err, panic, outcome}
use capi_wx_one.Effects.Events.{Event, Trace}

abbrev pub Exec : Type 0 → Type 0
Exec A = Trace → Outcome A × Trace

module _ {A : Type 0} where
  unfoldable pub pure : A → Exec A
  pure a t = (ok a, t)

  unfoldable pub throw : Error → Exec A
  throw e t = (err e, t)

  -- a reply that another function computed
  unfoldable pub lift : Reply A → Exec A
  lift r t = (outcome r, t)

  -- the same for an outcome
  unfoldable pub embed : Outcome A → Exec A
  embed r t = (r, t)

  -- A call that leaves the program, and the event that it leaves in the trace.
  unfoldable pub call : (Trace → Reply A) → (Reply A → Event) → Exec A
  call f record_of t = let r = f t in (outcome r, record_of r ∷ t)

  -- The same where the caller looks at the error itself.
  unfoldable pub attempt : (Trace → Reply A) → (Reply A → Event) → Exec (Reply A)
  attempt f record_of t = let r = f t in (ok r, record_of r ∷ t)

  -- A reply that depends on the trace and leaves no event.
  unfoldable pub consult : (Trace → Reply A) → Exec A
  consult f t = (outcome (f t), t)

  -- `*p`, a field of `p`, or a call of a method of `p`: a nil pointer panics
  unfoldable pub deref : Option A → Exec A
  deref none t = (panic, t)
  deref (some a) t = (ok a, t)

  -- `l[0]`
  unfoldable pub first : List A → Exec A
  first [] t = (panic, t)
  first (a ∷ l) t = (ok a, t)

module _ {A B : Type 0} where
  abbrev pub continue : Outcome A → (A → Exec B) → Exec B
  continue (ok a) f t = f a t
  continue (err e) f t = (err e, t)
  continue panic f t = (panic, t)

  infixl 5 ◌>>=◌ ◌>>◌
  -- opening this opens the actions above too
  unfoldable pub ◌>>=◌ : Exec A → (A → Exec B) → Exec B
  unfolding pure throw lift embed call attempt consult deref first
  ◌>>=◌ m f t = let (r, t') = m t in continue r f t'

  abbrev pub ◌>>◌ : Exec A → Exec B → Exec B
  m >> n = m >>= λ _. n
