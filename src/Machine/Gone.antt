-- ===== src/Machine/Gone.antt =====
-- A deletion of a machine in its two runs of reconcileDelete: under the hook, and without it.
use capi_wx_one.Base.{true, false, some, [], ◌∷◌, ◌≡◌, ◌⊎◌, inl, inr, refl, subst, ap, ◌∙◌}
use capi_wx_one.Base.{ℕ, is_empty, Bool}
use capi_wx_one.Api.{WxOneCluster, WxOneMachine, CapiMachine, ObjectMeta, machine_finalizer}
use capi_wx_one.Effects.{Env, Trace, done}
use capi_wx_one.Effects.History.{Happened}
use capi_wx_one.Effects.Ends.{Ends-trace}
use capi_wx_one.Machine.Stages.{Result, has_annotation, instance_id}
use capi_wx_one.Machine.Accounting.{stored}
use capi_wx_one.Machine.Teardown.{Outcomes, IsInstanceDeletion}
use capi_wx_one.Machine.Finishes.{Removes, machine_delete-finishes}
use capi_wx_one.Machine.Identity.{removal, run, step}

-- Each owner machine that GetOwnerMachine finds has the hook, or has it not.
abbrev pub Finds : Bool → Env → Type 0
Finds hook env =
    (t : Trace) (meta : ObjectMeta) (machine : CapiMachine)
    → env.kube.get_owner_machine t meta ≡ done (some machine)
    → has_annotation machine.annotations ≡ hook

-- What is left of the machine `old` after the second run.
pub record Gone (start old : WxOneMachine) (second : Env) (wx : WxOneCluster) (t : Trace)
    : Type 0 where
  pub no_instance : is_empty (instance_id (stored start t)) ≡ true
  pub instance_gone :
      (is_empty (instance_id old) ≡ true)
      ⊎ Happened (IsInstanceDeletion (instance_id old) wx.status.project.resource_id) t
  pub finalizer_dropped :
      (stored start t).meta.finalizers
      ≡ second.kube.remove_finalizer old.meta.finalizers machine_finalizer

-- The first run leaves the instance and the finalizers.
record Waits (start old : WxOneMachine) (t : Trace) : Type 0 where
  held : (stored start t).meta.finalizers ≡ old.meta.finalizers
  kept_instance : instance_id (stored start t) ≡ instance_id old

module _ (start old : WxOneMachine) (env : Env) (wx : WxOneCluster) (n : ℕ)
    (s : WxOneMachine × Result) (t : Trace) where
  under_hook : Finds true env → Outcomes start old env wx n s t → Waits start old t
  under_hook finds (machine, found, inl (hook, h)) = record {
    held = h.waiting.steady.held;
    kept_instance = h.waiting.steady.kept_instance;
  }
  under_hook finds (machine, (u, found), inr (no_hook, h)) =
      let hook = finds u old.meta machine found in absurd cc

  without_hook : Finds false env → Outcomes start old env wx n s t → Gone start old env wx t
  without_hook finds (machine, (u, found), inl (hook, h)) =
      let no_hook = finds u old.meta machine found in absurd cc
  without_hook finds (machine, found, inr (no_hook, h)) = record {
    no_instance = ap (λ (m : WxOneMachine). is_empty (instance_id m)) h.is_stored ∙ h.no_instance;
    instance_gone = h.instance_gone;
    finalizer_dropped =
        ap (λ (m : WxOneMachine). m.meta.finalizers) h.is_stored ∙ h.finalizer_dropped;
  }

-- The second run's machine has the instance and the finalizers of the first one's.
carry_over :
    (start old : WxOneMachine) (second : Env) (wx : WxOneCluster) (t u : Trace)
    → Waits start old t
    → Gone start (stored start t) second wx u
    → Gone start old second wx u
carry_over start old second wx t u w h = record {
  no_instance = h.no_instance;
  instance_gone =
      subst
        (λ id.
          (is_empty id ≡ true) ⊎ Happened (IsInstanceDeletion id wx.status.project.resource_id) u)
        w.kept_instance h.instance_gone;
  finalizer_dropped =
      h.finalizer_dropped ∙ ap (λ fs. second.kube.remove_finalizer fs machine_finalizer) w.held;
}

-- Let the owner machine be found with the hook in a first environment and without it in a second,
-- and let in both every call to the API server succeed, the login be accepted and WX-ONE answer each
-- deletion. Then, after any trace, two runs of the machine's reconcileDelete, each on the object that
-- the API server then holds, leave an object there without an instance and with the finalizers that
-- RemoveFinalizer leaves of those before, and the deletion of the instance that was recorded before,
-- if there was one, was requested and answered.
pub two_removals-Gone :
    (first second : Env) (wx : WxOneCluster) (start : WxOneMachine) (t : Trace)
    → Removes first
    → Removes second
    → Finds true first
    → Finds false second
    → Gone start
        (stored start t)
        second
        wx
        (run start (removal first wx ∷ removal second wx ∷ []) t)
two_removals-Gone first second wx start t removes1 removes2 hooked unhooked =
    let old = stored start t in
    let t1 = step (removal first wx) old t in
    let waits : Waits start old t1 =
      Ends-trace (λ s u p. under_hook start old first wx _ s u hooked p) (λ u e. absurd e)
        (machine_delete-finishes first wx start old t refl removes1) in
    carry_over start old second wx t1 _ waits (
      Ends-trace (λ s u p. without_hook start (stored start t1) second wx _ s u unhooked p)
        (λ u e. absurd e)
        (machine_delete-finishes second wx start (stored start t1) t1 refl removes2))
