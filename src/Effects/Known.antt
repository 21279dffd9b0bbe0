-- ===== src/Effects/Known.antt =====
-- The rules for an action whose reply is known.
use capi_wx_one.Base.{Option, some, List, ◌∷◌, ◌≡◌, sym, subst}
use capi_wx_one.Effects.Errors.{Reply, done, Outcome, ok, outcome}
use capi_wx_one.Effects.Events.{Event, Trace}
use capi_wx_one.Effects.Action.{Exec, lift, embed, call, consult, deref, first, continue, ◌>>=◌}
use capi_wx_one.Effects.Ends.{Ends, Post}

module _ {A B : Type 0} {R : B → Trace → Type 0} {E : Trace → Type 0} (k : A → Exec B) (a : A)
    {t : Trace} where
  pub Ends-lift_done : {r : Reply A} → r ≡ done a → Ends R E (k a) t → Ends R E (lift r >>= k) t
  unfolding ◌>>=◌
  Ends-lift_done {r} e h = record {
    holds = subst (λ x. Post R E (continue (outcome x) k t)) (sym e) h.holds;
  }

  pub Ends-embed_ok : {r : Outcome A} → r ≡ ok a → Ends R E (k a) t → Ends R E (embed r >>= k) t
  unfolding ◌>>=◌
  Ends-embed_ok {r} e h = record { holds = subst (λ x. Post R E (continue x k t)) (sym e) h.holds }

  pub Ends-consult_done :
      (f : Trace → Reply A) → f t ≡ done a → Ends R E (k a) t → Ends R E (consult f >>= k) t
  unfolding ◌>>=◌
  Ends-consult_done f e h = record {
    holds = subst (λ x. Post R E (continue (outcome x) k t)) (sym e) h.holds;
  }

  pub Ends-deref_known : {o : Option A} → o ≡ some a → Ends R E (k a) t → Ends R E (deref o >>= k) t
  unfolding ◌>>=◌
  Ends-deref_known {o} e h = record {
    holds = subst (λ x. Post R E (continue (deref x t).0 k (deref x t).1)) (sym e) h.holds;
  }

  pub Ends-first_cons :
      (rest : List A) {l : List A} → l ≡ a ∷ rest → Ends R E (k a) t → Ends R E (first l >>= k) t
  unfolding ◌>>=◌
  Ends-first_cons rest {l} e h = record {
    holds = subst (λ x. Post R E (continue (first x t).0 k (first x t).1)) (sym e) h.holds;
  }

  pub Ends-call_done :
      (f : Trace → Reply A) (g : Reply A → Event)
      → f t ≡ done a
      → Ends R E (k a) (g (done a) ∷ t)
      → Ends R E (call f g >>= k) t
  unfolding ◌>>=◌
  Ends-call_done f g e h = record {
    holds = subst (λ x. Post R E (continue (outcome x) k (g x ∷ t))) (sym e) h.holds;
  }

  -- A request of a client that is there.
  pub Ends-request_done :
      {C : Type 0} (c : C) {o : Option C} (f : C → Trace → Reply A) (g : Reply A → Event)
      → o ≡ some c
      → f c t ≡ done a
      → Ends R E (k a) (g (done a) ∷ t)
      → Ends R E ((deref o >>= λ c. call (f c) g) >>= k) t
  unfolding ◌>>=◌
  Ends-request_done c {o} f g e e' h =
      subst (λ x. Ends R E ((deref x >>= λ c'. call (f c') g) >>= k) t) (sym e)
        (record { holds = (Ends-call_done (f c) g e' h).holds })

-- A call that is the last step.
pub Ends-call_last :
    {A : Type 0} {Q : A → Trace → Type 0} {E : Trace → Type 0} (a : A) (f : Trace → Reply A)
    (g : Reply A → Event) {t : Trace}
    → f t ≡ done a
    → Q a (g (done a) ∷ t)
    → Ends Q E (call f g) t
unfolding call
Ends-call_last {Q} {E} a f g {t} e h = record {
  holds = subst (λ x. Post Q E (outcome x, g x ∷ t)) (sym e) h;
}
