-- ===== src/Effects/Bounded.antt =====
-- How many calls an action makes at most, however it ends; one rule for each way to build an
-- action.
use capi_wx_one.Base.{
  ℕ, ◌+◌, ◌≤◌, Bool, true, false, Option, none, some, List, [], ◌∷◌, arith, if◌then◌else◌,
}
use capi_wx_one.Effects.Errors.{Error, Reply, Outcome, ok, err, panic}
use capi_wx_one.Effects.Events.{Event, Trace}
use capi_wx_one.Effects.Action.{
  Exec, pure, throw, lift, embed, call, attempt, consult, deref, first, continue, ◌>>=◌,
}

abbrev pub length {ℓ} : {A : Type ℓ} → List A → ℕ
length [] = 0
length (a ∷ l) = 1 + length l

pub record Within {A : Type 0} (n : ℕ) (m : Exec A) : Type 0 where
  pub holds : (t : Trace) → length (m t).1 ≤ n + length t

module _ {A B : Type 0} where
  continue-bound :
      (a b : ℕ) (r : Outcome A × Trace) (f : A → Exec B) (t : Trace)
      → length r.1 ≤ a + length t
      → ((x : A) → Within b (f x))
      → length (continue r.0 f r.1).1 ≤ (a + b) + length t
  continue-bound a b (ok x, u) f t h next = let rest = (next x).holds u in omega arith
  continue-bound a b (err e, u) f t h next = omega arith
  continue-bound a b (panic, u) f t h next = omega arith

  -- The bounds of two steps add up.
  pub Within-bind :
      (a b : ℕ) {m : Exec A} {f : A → Exec B}
      → Within a m
      → ((x : A) → Within b (f x))
      → Within (a + b) (m >>= f)
  unfolding ◌>>=◌
  Within-bind a b {m} {f} h next = record {
    holds = λ t. continue-bound a b (m t) f t (h.holds t) next;
  }

module _ {A : Type 0} where
  pub Within-more : (a b : ℕ) {m : Exec A} → a ≤ b → Within a m → Within b m
  Within-more a b {m} le h = record { holds = λ t. let own = h.holds t in omega arith }

  pub Within-if :
      {n : ℕ} (b : Bool) {m k : Exec A} → Within n m → Within n k → Within n (if b then m else k)
  Within-if true h k = h
  Within-if false h k = k

  pub Within-pure : (a : A) → Within 0 (pure a)
  unfolding pure
  Within-pure a = record { holds = λ t. omega arith }

  pub Within-throw : (e : Error) → Within {A = A} 0 (throw e)
  unfolding throw
  Within-throw e = record { holds = λ t. omega arith }

  pub Within-lift : (r : Reply A) → Within 0 (lift r)
  unfolding lift
  Within-lift r = record { holds = λ t. omega arith }

  pub Within-embed : (r : Outcome A) → Within 0 (embed r)
  unfolding embed
  Within-embed r = record { holds = λ t. omega arith }

  pub Within-consult : (f : Trace → Reply A) → Within 0 (consult f)
  unfolding consult
  Within-consult f = record { holds = λ t. omega arith }

  pub Within-deref : (o : Option A) → Within 0 (deref o)
  unfolding deref
  Within-deref none = record { holds = λ t. omega arith }
  Within-deref (some a) = record { holds = λ t. omega arith }

  pub Within-first : (l : List A) → Within 0 (first l)
  unfolding first
  Within-first [] = record { holds = λ t. omega arith }
  Within-first (a ∷ l) = record { holds = λ t. omega arith }

  pub Within-call : (f : Trace → Reply A) (g : Reply A → Event) → Within 1 (call f g)
  unfolding call
  Within-call f g = record { holds = λ t. omega arith }

  pub Within-attempt : (f : Trace → Reply A) (g : Reply A → Event) → Within 1 (attempt f g)
  unfolding attempt
  Within-attempt f g = record { holds = λ t. omega arith }

-- A request of a client that may be nil.
pub Within-request :
    {A C : Type 0} (o : Option C) (f : C → Trace → Reply A) (g : Reply A → Event)
    → Within 1 (deref o >>= λ c. call (f c) g)
Within-request o f g = Within-bind 0 1 (Within-deref o) λ c. Within-call (f c) g
