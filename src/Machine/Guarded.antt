-- ===== src/Machine/Guarded.antt =====
-- reconcileNormal of a machine: the finalizer that the API server holds and the pre-drain hook of
-- the owner, when an instance is asked for.
pub mod Normal
use capi_wx_one.Base.{⊤, String, Bool, true, List, [], ◌∷◌, ◌≡◌, ◌⊎◌, inl, inr}
use capi_wx_one.Api.{WxOneMachine, CapiMachine, machine_finalizer}
use capi_wx_one.Effects.{Trace, Event, done, updated_machine, created_instance}
use capi_wx_one.Effects.History.{Happened, later}
use capi_wx_one.Effects.Ends.{IsClosed}
use capi_wx_one.Cluster.Guarded.{contains}
use capi_wx_one.Machine.Stages.{has_annotation}
use capi_wx_one.Machine.Accounting.{stored}

-- The API server took an update of the owner with the hook.
abbrev pub IsHooking : Event → Type 0
IsHooking (updated_machine machine (done r)) = has_annotation machine.annotations ≡ true
IsHooking e = ⊥

module _ (machine : CapiMachine) where
  -- The owner had the hook when it was read, or it was given it since.
  abbrev pub Hooked : Trace → Type 0
  Hooked t = (has_annotation machine.annotations ≡ true) ⊎ Happened IsHooking t

  abbrev pub IsGuarded : WxOneMachine → Event → Trace → Type 0
  IsGuarded held (created_instance input r) t =
      (contains machine_finalizer held.meta.finalizers ≡ true) × Hooked t
  IsGuarded held e t = ⊤

  module _ (start : WxOneMachine) where
    abbrev pub AllGuarded : Trace → Type 0
    AllGuarded [] = ⊤
    AllGuarded (e ∷ t) = IsGuarded (stored start t) e t × AllGuarded t

    -- The object in memory and the stored one have the finalizer, and the owner has the hook.
    pub record Covered (m : WxOneMachine) (t : Trace) : Type 0 where
      pub memory : contains machine_finalizer m.meta.finalizers ≡ true
      pub server : contains machine_finalizer (stored start t).meta.finalizers ≡ true
      pub hooked : Hooked t
      pub guarded : AllGuarded t

    pub Covered-IsClosed : (m : WxOneMachine) → IsClosed (Covered m)
    Covered-IsClosed m = record {
      read_closed = λ q t h. record {
        memory = h.memory;
        server = h.server;
        hooked = later h.hooked;
        guarded = (tt, h.guarded);
      };
      posted_closed = λ url body t h. record {
        memory = h.memory;
        server = h.server;
        hooked = later h.hooked;
        guarded = (tt, h.guarded);
      };
      asked_closed = λ q t h. record {
        memory = h.memory;
        server = h.server;
        hooked = later h.hooked;
        guarded = (tt, h.guarded);
      };
    }
