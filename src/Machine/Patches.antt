-- ===== src/Machine/Patches.antt =====
-- What holds of every object that the machine controller sends to the API server, for a property
-- that the controller's writes keep.
pub mod Normal
pub mod Deletion
use capi_wx_one.Base.{
  ⊤, String, ◌<>◌, Bool, true, false, Option, none, some, List, [], ◌∷◌, arith, ◌≡◌, refl, is_empty,
  if◌then◌else◌,
}
use capi_wx_one.Api.{WxOneCluster, WxOneMachine, CapiCluster, CapiMachine, MachineAddress}
use capi_wx_one.Graphql.Operations
use capi_wx_one.Graphql.Responses.{FoundInstance, instance_status_running}
use capi_wx_one.Effects.History.{Happened}
use capi_wx_one.Clients.{WxOneClients}
use capi_wx_one.Effects.{
  Env, Trace, Exec, Event, Reply, done, failed, pure, ◌>>=◌, patched_machine, asked, done,
  instance_of,
}
use capi_wx_one.Effects.Ends.{
  Ends, Keeps, IsClosed, Ends-bind, Ends-pure, Ends-throw, Ends-if, Ends-lift, Ends-embed,
  Ends-call, Ends-call_bind, Ends-attempt, Ends-deref, Ends-deref_bind, Ends-first_bind,
  Ends-request_bind, Ends-consult, Ends-weaken, Ends-trace,
}
use capi_wx_one.Cluster.Stages.{connect}
use capi_wx_one.Cluster.Keeps.{connect-Keeps}
use capi_wx_one.Machine.Stages
use capi_wx_one.Machine.Stages.{
  PatchHelper, Result, patch, new_helper, with_finalizers, with_flavor_id, with_image_id,
  with_instance_id, with_attachement_id, with_provider_id, with_addresses, with_ready,
  has_annotation,
}
use capi_wx_one.Machine.Walk.{IsRunning}
use capi_wx_one.Machine.Removal
use capi_wx_one.Machine.Reconciler
use capi_wx_one.Machine.Reconciler.{reconcile_normal}
use capi_wx_one.Machine.Removal.{reconcile_delete}

-- The object of a patch, accepted or not, has the property at the time of the patch.
abbrev pub IsFine : (WxOneMachine → Trace → Type 0) → Event → Trace → Type 0
IsFine P (patched_machine before m r) t = P m t
IsFine P e t = ⊤

abbrev pub AllFine : (WxOneMachine → Trace → Type 0) → Trace → Type 0
AllFine P [] = ⊤
AllFine P (e ∷ t) = IsFine P e t × AllFine P t

-- Further events and the writes of the controller keep the property. It sets the ready flag after
-- an answer that the instance runs.
pub record IsKept (P : WxOneMachine → Trace → Type 0) : Type 0 where
  pub later : {m : WxOneMachine} {t : Trace} (e : Event) → P m t → P m (e ∷ t)
  pub finalizers :
      (m : WxOneMachine) (fs : List String) (t : Trace) → P m t → P (with_finalizers m fs) t
  pub flavor : (m : WxOneMachine) (id : String) (t : Trace) → P m t → P (with_flavor_id m id) t
  pub image : (m : WxOneMachine) (id : String) (t : Trace) → P m t → P (with_image_id m id) t
  pub instance_made :
      (m : WxOneMachine) (id : String) (l : List MachineAddress) (t : Trace)
      → P m t
      → P (with_addresses (with_instance_id (with_provider_id m (some ("wxone://" <> id))) id) l) t
  pub instance_dropped : (m : WxOneMachine) (t : Trace) → P m t → P (with_instance_id m "") t
  pub attachement :
      (m : WxOneMachine) (id : String) (t : Trace) → P m t → P (with_attachement_id m id) t
  pub ready : (m : WxOneMachine) (t : Trace) → Happened IsRunning t → P m t → P (with_ready m) t

module _ (P : WxOneMachine → Trace → Type 0) (kept : IsKept P) where
  pub record Good (m : WxOneMachine) (t : Trace) : Type 0 where
    pub memory : P m t
    pub sent : AllFine P t

  pub Good-IsClosed : (m : WxOneMachine) → IsClosed (Good m)
  Good-IsClosed m = record {
    read_closed = λ q t h. record { memory = kept.later _ h.memory; sent = (tt, h.sent) };
    posted_closed = λ url body t h. record { memory = kept.later _ h.memory; sent = (tt, h.sent) };
    asked_closed = λ q t h. record { memory = kept.later _ h.memory; sent = (tt, h.sent) };
  }

  -- With the controller's answer beside the object.
  abbrev pub GoodResult : WxOneMachine × Result → Trace → Type 0
  GoodResult s = Good s.0

  module _ (env : Env) where
    pub patch-Good :
        (helper : PatchHelper) (m : WxOneMachine) (t : Trace)
        → P m t
        → AllFine P t
        → Ends (λ _. Good m) (AllFine P) (patch env helper m) t
    unfolding patch
    patch-Good helper m t p h =
        Ends-call _ _ (λ _ _. record { memory = kept.later _ p; sent = (p, h) }) (λ _ _. (p, h))

    pub new_helper-Good :
        (m : WxOneMachine) (t : Trace)
        → Good m t
        → Ends (λ _. Good m) (AllFine P) (new_helper env m) t
    unfolding new_helper
    new_helper-Good m t h =
        Ends-bind (Ends-consult {Q = λ _. Good m} _ h.sent (λ _ _. h)) λ _ t1 h1. Ends-pure _ h1

    pub ensure_hook-Good :
        (machine : CapiMachine) (m : WxOneMachine) (t : Trace)
        → Good m t
        → Ends (λ _. Good m) (AllFine P) (Stages.ensure_hook env machine) t
    unfolding Stages.ensure_hook Stages.update
    ensure_hook-Good machine m t h =
        Ends-if {b = has_annotation machine.annotations} (λ _. Ends-pure _ h)
          (λ _.
            Ends-call _ _ (λ _ _. record { memory = kept.later _ h.memory; sent = (tt, h.sent) })
              (λ _ _. (tt, h.sent)))

    pub add_finalizer-Good :
        (helper : PatchHelper) (m : WxOneMachine) (t : Trace)
        → Good m t
        → Ends Good (AllFine P) (Stages.add_finalizer env helper m) t
    unfolding Stages.add_finalizer
    add_finalizer-Good helper m t h =
        Ends-bind (patch-Good helper _ t (kept.finalizers m _ t h.memory) h.sent)
          λ _ t1 h1. Ends-pure _ h1

    pub connect-Good :
        (wx : WxOneCluster) (m : WxOneMachine) (t : Trace)
        → Good m t
        → Ends (λ _. Good m) (AllFine P) (connect env wx) t
    connect-Good wx m t h =
        Ends-weaken (connect-Keeps env (Good m) (Good-IsClosed m) wx t h) (λ _ u p. p)
          (λ u p. p.sent)

    module _ (clients : WxOneClients) (helper : PatchHelper) (wx : WxOneCluster) where
      -- A patch, and the object returned.
      pub send :
          (m : WxOneMachine) (t : Trace)
          → P m t
          → AllFine P t
          → Ends Good (AllFine P) (patch env helper m >>= λ _. pure m) t
      send m t p h = Ends-bind (patch-Good helper m t p h) λ _ t1 h1. Ends-pure m h1
