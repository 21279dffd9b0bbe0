-- ===== src/Effects/Ends/Continued.antt =====
-- The same rules for a first step whose continuation is at hand, and properties of the trace that
-- hold at every end.
use capi_wx_one.Base.{String, Option, none, some, List, ◌∷◌, ◌≡◌, refl, Dict}
use capi_wx_one.Effects.Errors.{Error, Reply, done, failed, Outcome, ok, err, panic, outcome}
use capi_wx_one.Effects.Events.{Event, Trace, Query, Question, read, posted, asked}
use capi_wx_one.Effects.Action.{Exec, call, deref, first, continue, ◌>>=◌}
use capi_wx_one.Effects.Ends.Rules.{Post, Ends}

-- The same rules for a first step whose continuation is at hand: the goal fixes every argument.
module _ {A B : Type 0} {E : Trace → Type 0} {R : B → Trace → Type 0} {k : A → Exec B} where
  pub Ends-deref_bind :
      {o : Option A} {t : Trace}
      → (o ≡ none → E t)
      → ((a : A) → o ≡ some a → Ends R E (k a) t)
      → Ends R E (deref o >>= k) t
  unfolding ◌>>=◌
  Ends-deref_bind {o = none} e h = record { holds = e refl }
  Ends-deref_bind {o = some a} e h = record { holds = (h a refl).holds }

  pub Ends-first_bind :
      {l : List A} {t : Trace}
      → (l ≡ List.[] → E t)
      → ((a : A) (r : List A) → l ≡ a ∷ r → Ends R E (k a) t)
      → Ends R E (first l >>= k) t
  unfolding ◌>>=◌
  Ends-first_bind {l = List.[]} e h = record { holds = e refl }
  Ends-first_bind {l = a ∷ r} e h = record { holds = (h a r refl).holds }

  pub Ends-call_bind :
      (f : Trace → Reply A) (g : Reply A → Event) {t : Trace}
      → ((a : A) → f t ≡ done a → Ends R E (k a) (g (done a) ∷ t))
      → ((e : Error) → f t ≡ failed e → E (g (failed e) ∷ t))
      → Ends R E (call f g >>= k) t
  unfolding ◌>>=◌
  Ends-call_bind f g {t} h e = record { holds = by_reply (f t) h e }
    where
      by_reply :
          (r : Reply A)
          → ((a : A) → r ≡ done a → Ends R E (k a) (g (done a) ∷ t))
          → ((x : Error) → r ≡ failed x → E (g (failed x) ∷ t))
          → Post R E (continue (outcome r) k (g r ∷ t))
      by_reply (done a) h e = (h a refl).holds
      by_reply (failed x) h e = e x refl

  -- A request of a client that may be nil.
  pub Ends-request_bind :
      {C : Type 0} (o : Option C) (f : C → Trace → Reply A) (g : Reply A → Event) {t : Trace}
      → E t
      → ((a : A) → Ends R E (k a) (g (done a) ∷ t))
      → ((e : Error) → E (g (failed e) ∷ t))
      → Ends R E ((deref o >>= λ c. call (f c) g) >>= k) t
  unfolding ◌>>=◌
  Ends-request_bind none f g e h x = record { holds = e }
  Ends-request_bind (some c) f g {t} e h x = record {
    holds = (Ends-call_bind (f c) g (λ a _. h a) (λ y _. x y)).holds;
  }

-- An action that returns has the condition of its values.
pub Ends-returns :
    {A : Type 0} {Q : A → Trace → Type 0} {E : Trace → Type 0} {m : Exec A} {t : Trace}
    → Ends Q E m t
    → Ends (λ _ _. Unit {0}) (λ _. ⊥) m t
    → Ends Q (λ _. ⊥) m t
Ends-returns {A} {Q} {E} {m} {t} h returns = record {
  holds = by_outcome (m t) h.holds returns.holds;
}
  where
    by_outcome :
        (r : Outcome A × Trace) → Post Q E r → Post (λ _ _. Unit {0}) (λ _. ⊥) r → Post Q (λ _. ⊥) r
    by_outcome (ok a, u) p q = p
    by_outcome (err e, u) p q = q
    by_outcome (panic, u) p q = q

-- A pointer that is not nil.
pub Ends-some_bind :
    {A B : Type 0} {E : Trace → Type 0} {R : B → Trace → Type 0} (a : A) (k : A → Exec B)
    {t : Trace}
    → Ends R E (k a) t
    → Ends R E (deref (some a) >>= k) t
unfolding ◌>>=◌
Ends-some_bind a k h = record { holds = h.holds }

-- A property of the trace that holds at every end.
abbrev pub Keeps : {A : Type 0} → (Trace → Type 0) → Exec A → Trace → Type 0
Keeps P m t = Ends (λ _. P) P m t

-- What both conditions say of the trace holds of it at every end.
pub Ends-trace :
    {A : Type 0} {Q : A → Trace → Type 0} {E P : Trace → Type 0} {m : Exec A} {t : Trace}
    → ((a : A) (t : Trace) → Q a t → P t)
    → ((t : Trace) → E t → P t)
    → Ends Q E m t
    → P (m t).1
Ends-trace {A} {Q} {E} {P} {m} {t} from_ok from_stop h = by_outcome (m t) h.holds
  where
    by_outcome : (r : Outcome A × Trace) → Post Q E r → P r.1
    by_outcome (ok a, u) p = from_ok a u p
    by_outcome (err e, u) p = from_stop u p
    by_outcome (panic, u) p = from_stop u p

-- Reads of the Kubernetes API and of WX-ONE, and the two posts of a login, change nothing outside.
pub record IsClosed (P : Trace → Type 0) : Type 0 where
  pub read_closed : (q : Query) (t : Trace) → P t → P (read q ∷ t)
  pub posted_closed :
      (url : String) (body : Dict String) (t : Trace) → P t → P (posted url body ∷ t)
  pub asked_closed : (q : Question) (t : Trace) → P t → P (asked q ∷ t)
