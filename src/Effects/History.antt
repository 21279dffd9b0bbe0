-- ===== src/Effects/History.antt =====
-- What happened in a trace.
use capi_wx_one.Base.{◌⊎◌, inl, inr, ◌∷◌}
use capi_wx_one.Effects.Events.{Event, Trace}

-- An event of the trace has the property.
pub data Happened (P : Event → Type 0) : Trace → Type 0 where
  now : {e : Event} {t : Trace} → P e → Happened P (e ∷ t)
  earlier : {e : Event} {t : Trace} → Happened P t → Happened P (e ∷ t)

-- An event in front of the trace keeps what happened.
pub later :
    {X : Type 0} {P : Event → Type 0} {e : Event} {t : Trace}
    → X ⊎ Happened P t
    → X ⊎ Happened P (e ∷ t)
later (inl x) = inl x
later (inr h) = inr (earlier h)
