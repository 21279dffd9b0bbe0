-- ===== src/Effects/Ends/Rules.antt =====
-- The postcondition of an action, and one rule for each way to build one.
use capi_wx_one.Base.{Bool, true, false, Option, none, some, List, ◌∷◌, ◌≡◌, refl, if◌then◌else◌}
use capi_wx_one.Effects.Errors.{Error, Reply, done, failed, Outcome, ok, err, panic, outcome}
use capi_wx_one.Effects.Events.{Event, Trace}
use capi_wx_one.Effects.Action.{
  Exec, pure, throw, lift, embed, call, attempt, consult, deref, first, continue, ◌>>=◌,
}

abbrev pub Post :
    {A : Type 0} → (A → Trace → Type 0) → (Trace → Type 0) → Outcome A × Trace → Type 0
Post Q E (ok a, t) = Q a t
Post Q E (err e, t) = E t
Post Q E (panic, t) = E t

pub record Ends {A : Type 0} (Q : A → Trace → Type 0) (E : Trace → Type 0) (m : Exec A) (t : Trace)
    : Type 0 where
  pub holds : Post Q E (m t)

module _ {A B : Type 0} {Q : A → Trace → Type 0} {E : Trace → Type 0} {R : B → Trace → Type 0} where
  Post-continue :
      (r : Outcome A × Trace) (f : A → Exec B)
      → Post Q E r
      → ((a : A) (t : Trace) → Q a t → Ends R E (f a) t)
      → Post R E (continue r.0 f r.1)
  Post-continue (ok a, t) f h next = (next a t h).holds
  Post-continue (err e, t) f h next = h
  Post-continue (panic, t) f h next = h

  -- The first step's postcondition is the second's precondition.
  pub Ends-bind :
      {m : Exec A} {f : A → Exec B} {t : Trace}
      → Ends Q E m t
      → ((a : A) (t : Trace) → Q a t → Ends R E (f a) t)
      → Ends R E (m >>= f) t
  unfolding ◌>>=◌
  Ends-bind {m} {f} {t} h next = record { holds = Post-continue (m t) f h.holds next }

module _ {A : Type 0} (Q : A → Trace → Type 0) (E : Trace → Type 0) where
  call_reply :
      (g : Reply A → Event) (t : Trace) (r : Reply A)
      → ((a : A) → r ≡ done a → Q a (g r ∷ t))
      → ((e : Error) → r ≡ failed e → E (g r ∷ t))
      → Post Q E (outcome r, g r ∷ t)
  call_reply g t (done a) h k = h a refl
  call_reply g t (failed e) h k = k e refl

module _ {A : Type 0} {Q : A → Trace → Type 0} {E : Trace → Type 0} where
  pub Ends-pure : (a : A) {t : Trace} → Q a t → Ends Q E (pure a) t
  unfolding pure
  Ends-pure a h = record { holds = h }

  pub Ends-throw : (e : Error) {t : Trace} → E t → Ends Q E (throw e) t
  unfolding throw
  Ends-throw e h = record { holds = h }

  pub Ends-deref :
      {o : Option A} {t : Trace} → E t → ((a : A) → o ≡ some a → Q a t) → Ends Q E (deref o) t
  unfolding deref
  Ends-deref {o = none} e h = record { holds = e }
  Ends-deref {o = some a} e h = record { holds = h a refl }

  pub Ends-first :
      {l : List A} {t : Trace}
      → E t
      → ((a : A) (r : List A) → l ≡ a ∷ r → Q a t)
      → Ends Q E (first l) t
  unfolding first
  Ends-first {l = List.[]} e h = record { holds = e }
  Ends-first {l = a ∷ r} e h = record { holds = h a r refl }

  pub Ends-embed :
      {r : Outcome A} {t : Trace} → E t → ((a : A) → r ≡ ok a → Q a t) → Ends Q E (embed r) t
  unfolding embed
  Ends-embed {r = ok a} e h = record { holds = h a refl }
  Ends-embed {r = err x} e h = record { holds = e }
  Ends-embed {r = panic} e h = record { holds = e }

  pub Ends-lift :
      {r : Reply A} {t : Trace} → E t → ((a : A) → r ≡ done a → Q a t) → Ends Q E (lift r) t
  unfolding lift
  Ends-lift {r = done a} e h = record { holds = h a refl }
  Ends-lift {r = failed x} e h = record { holds = e }

  pub Ends-consult :
      (f : Trace → Reply A) {t : Trace}
      → E t
      → ((a : A) → f t ≡ done a → Q a t)
      → Ends Q E (consult f) t
  unfolding consult lift
  Ends-consult f {t} e h = record { holds = (Ends-lift {r = f t} e h).holds }

  pub Ends-call :
      (f : Trace → Reply A) (g : Reply A → Event) {t : Trace}
      → ((a : A) → f t ≡ done a → Q a (g (f t) ∷ t))
      → ((e : Error) → f t ≡ failed e → E (g (f t) ∷ t))
      → Ends Q E (call f g) t
  unfolding call
  Ends-call f g {t} h k = record { holds = call_reply Q E g t (f t) h k }

  -- The reply in the event's place.
  pub Ends-call_reply :
      (f : Trace → Reply A) (g : Reply A → Event) {t : Trace}
      → ((a : A) → Q a (g (done a) ∷ t))
      → ((e : Error) → E (g (failed e) ∷ t))
      → Ends Q E (call f g) t
  unfolding call
  Ends-call_reply f g {t} h k = record { holds = by_reply (f t) }
    where
      by_reply : (r : Reply A) → Post Q E (outcome r, g r ∷ t)
      by_reply (done a) = h a
      by_reply (failed e) = k e

  pub Ends-if :
      {b : Bool} {m n : Exec A} {t : Trace}
      → (b ≡ true → Ends Q E m t)
      → (b ≡ false → Ends Q E n t)
      → Ends Q E (if b then m else n) t
  Ends-if {b = true} h k = h refl
  Ends-if {b = false} h k = k refl

  pub Ends-mono :
      {R : A → Trace → Type 0} {m : Exec A} {t : Trace}
      → Ends Q E m t
      → ((a : A) (t : Trace) → Q a t → R a t)
      → Ends R E m t
  Ends-mono {R} {m} {t} h weaken = record { holds = by_outcome (m t) h.holds }
    where
      by_outcome : (r : Outcome A × Trace) → Post Q E r → Post R E r
      by_outcome (ok a, u) p = weaken a u p
      by_outcome (err e, u) p = p
      by_outcome (panic, u) p = p

-- Both conditions weakened.
pub Ends-weaken :
    {A : Type 0} {Q R : A → Trace → Type 0} {E F : Trace → Type 0} {m : Exec A} {t : Trace}
    → Ends Q E m t
    → ((a : A) (t : Trace) → Q a t → R a t)
    → ((t : Trace) → E t → F t)
    → Ends R F m t
Ends-weaken {A} {Q} {R} {E} {F} {m} {t} h weaken loosen = record {
  holds = by_outcome (m t) h.holds;
}
  where
    by_outcome : (r : Outcome A × Trace) → Post Q E r → Post R F r
    by_outcome (ok a, u) p = weaken a u p
    by_outcome (err e, u) p = loosen u p
    by_outcome (panic, u) p = loosen u p

-- Nothing is asked.
pub Ends-any : {A : Type 0} {m : Exec A} {t : Trace} → Ends (λ _ _. Unit {0}) (λ _. Unit {0}) m t
Ends-any {A} {m} {t} = record { holds = by_outcome (m t) }
  where
    by_outcome : (r : Outcome A × Trace) → Post (λ _ _. Unit {0}) (λ _. Unit {0}) r
    by_outcome (ok a, u) = tt
    by_outcome (err e, u) = tt
    by_outcome (panic, u) = tt

pub Ends-attempt :
    {A : Type 0} {Q : Reply A → Trace → Type 0} {E : Trace → Type 0} (f : Trace → Reply A)
    (g : Reply A → Event) {t : Trace}
    → Q (f t) (g (f t) ∷ t)
    → Ends Q E (attempt f g) t
unfolding attempt
Ends-attempt f g h = record { holds = h }
