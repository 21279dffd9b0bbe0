-- ===== src/Machine/Teardown.antt =====
-- The machine's reconcileDelete: the route, the hook, the instance and the finalizer.
pub mod Hook
pub mod Run
use capi_wx_one.Base.{
  ℕ, String, true, false, ◌&&◌, ◌||◌, not, ◌≡◌, refl, sym, ap, ◌∙◌, ◌⊎◌, inl, inr, arith, is_empty,
  is_empty-empty, Option, some,
}
use capi_wx_one.Api.{WxOneCluster, WxOneMachine, CapiMachine, machine_finalizer}
use capi_wx_one.Clients.{WxOneClients}
use capi_wx_one.Graphql.Operations
use capi_wx_one.Effects.{Env, Trace, Event, done, deleted_instance, updated_machine}
use capi_wx_one.Effects.Ends.{
  Ends, IsClosed, Ends-bind, Ends-pure, Ends-if, Ends-deref_bind, Ends-call, Ends-call_bind,
  Ends-request_bind, Ends-consult, Ends-weaken, Ends-mono, Ends-lift, Ends-attempt,
}
use capi_wx_one.Effects.History.{Happened, now, earlier, later}
use capi_wx_one.Cluster.Keeps.{connect-Keeps}
use capi_wx_one.Cluster.Accounting.{count}
use capi_wx_one.Machine.Stages.{
  PatchHelper, Result, instance_id, attachement_id, new_helper, has_annotation,
}
use capi_wx_one.Machine.Removal.{
  reconcile_delete, by_hook, remove_hook, tear_down, ensure_withdrawn, withdraw_route,
  forget_attachement, ensure_detached, detach, ensure_no_instance, drop_instance, release,
  drop_finalizer, get_owner_machine, is_attached, without_hook,
}
use capi_wx_one.Machine.Accounting.{stored}

-- A request to delete this instance of this project was answered without an error of the call.
abbrev pub IsInstanceDeletion : String → String → Event → Type 0
IsInstanceDeletion id project (deleted_instance input (done answer)) =
    (input.id ≡ id) × (input.project_id ≡ project)
IsInstanceDeletion id project _ = ⊥

-- A request to delete an instance, accepted or not.
abbrev pub deletion_request : Event → ℕ
deletion_request (deleted_instance input r) = 1
deletion_request _ = 0

-- The API server took the owner machine without the hook.
abbrev pub IsHookRemoval : CapiMachine → Event → Type 0
IsHookRemoval machine (updated_machine sent (done got)) =
    sent ≡ record machine { annotations = without_hook machine.annotations }
IsHookRemoval machine _ = ⊥

module _ (start old : WxOneMachine) where
  -- The stored object has the finalizers that it had.
  abbrev pub Held : Trace → Type 0
  Held t = (stored start t).meta.finalizers ≡ old.meta.finalizers

  -- Nothing is done yet.
  pub record Fresh (n : ℕ) (t : Trace) : Type 0 where
    pub is_old : stored start t ≡ old
    pub no_request : count deletion_request t ≡ n

  -- The object in memory is the old one but for the attachement, and so is the stored one.
  pub record Steady (m : WxOneMachine) (t : Trace) : Type 0 where
    pub same_finalizers : m.meta.finalizers ≡ old.meta.finalizers
    pub held : Held t
    pub same_instance : instance_id m ≡ instance_id old
    pub kept_instance : instance_id (stored start t) ≡ instance_id old

  module _ (env : Env) (machine : CapiMachine) where
    pub record Waiting (n : ℕ) (m : WxOneMachine) (t : Trace) : Type 0 where
      pub steady : Steady m t
      pub no_request : count deletion_request t ≡ n
      pub withdrawn : is_attached env machine m ≡ false

    -- The end under the hook: the route is withdrawn, the hook is removed, no instance deletion
    -- was requested, and the stored object keeps its instance and its finalizers.
    pub record HookRemoved (n : ℕ) (m : WxOneMachine) (res : Result) (t : Trace) : Type 0 where
      pub waiting : Waiting n m t
      pub removed : Happened (IsHookRemoval machine) t
      pub no_requeue : res.requeue_after ≡ 0

    -- The end without the hook.
    pub record TornDown (wx : WxOneCluster) (m : WxOneMachine) (res : Result) (t : Trace)
        : Type 0 where
      pub no_instance : is_empty (instance_id m) ≡ true
      pub instance_gone :
          (is_empty (instance_id old) ≡ true)
          ⊎ Happened (IsInstanceDeletion (instance_id old) wx.status.project.resource_id) t
      pub withdrawn : is_attached env machine m ≡ false
      pub finalizer_dropped :
          m.meta.finalizers ≡ env.kube.remove_finalizer old.meta.finalizers machine_finalizer
      pub is_stored : stored start t ≡ m
      pub no_requeue : res.requeue_after ≡ 0

pub Fresh-IsClosed : (start old : WxOneMachine) (n : ℕ) → IsClosed (Fresh start old n)
Fresh-IsClosed start old n = record {
  read_closed = λ q t h. record { is_old = h.is_old; no_request = omega arith };
  posted_closed = λ url body t h. record { is_old = h.is_old; no_request = omega arith };
  asked_closed = λ q t h. record { is_old = h.is_old; no_request = omega arith };
}

pub Fresh-Held :
    (start old : WxOneMachine) (n : ℕ) (t : Trace) → Fresh start old n t → Held start old t
Fresh-Held start old n t h = ap (λ (m : WxOneMachine). m.meta.finalizers) h.is_old

-- GetOwnerMachine answered with this, at some point.
abbrev pub IsOwner : Env → WxOneMachine → Option CapiMachine → Type 0
IsOwner env old owner = (t : Trace) × (env.kube.get_owner_machine t old.meta ≡ done owner)

module _ (env : Env) (start old : WxOneMachine) (n : ℕ) where
  pub new_helper-Fresh :
      (t : Trace)
      → Fresh start old n t
      → Ends (λ _. Fresh start old n) (Held start old) (new_helper env old) t
  unfolding new_helper
  new_helper-Fresh t h =
      Ends-bind
        (Ends-consult {Q = λ _. Fresh start old n} _ (Fresh-Held start old n t h) (λ _ _. h))
        λ _ t1 h1. Ends-pure _ h1

  pub get_owner_machine-Fresh :
      (t : Trace)
      → Fresh start old n t
      → Ends
          (λ owner u. Fresh start old n u × IsOwner env old owner)
          (Held start old)
          (get_owner_machine env old)
          t
  unfolding get_owner_machine
  get_owner_machine-Fresh t h =
      Ends-call _ _
        (λ owner e.
          (record { is_old = h.is_old; no_request = omega (arith, h.no_request) }, (t, e)))
        (λ _ _. Fresh-Held start old n t h)

-- How a deletion ends, by the hook on the owner machine that it found.
abbrev pub Outcomes :
    WxOneMachine → WxOneMachine → Env → WxOneCluster → ℕ → WxOneMachine × Result → Trace → Type 0
Outcomes start old env wx n s t =
    (machine : CapiMachine) × IsOwner env old (some machine)
    × ((has_annotation machine.annotations ≡ true) × HookRemoved start old env machine n s.0 s.1 t
        ⊎ (has_annotation machine.annotations ≡ false)
          × TornDown start old env machine wx s.0 s.1 t)
