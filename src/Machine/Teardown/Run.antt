-- ===== src/Machine/Teardown/Run.antt =====
-- The part of reconcileDelete without the hook, and the whole of it.
use capi_wx_one.Base.{
  ℕ, true, false, ◌&&◌, ◌||◌, not, ◌≡◌, refl, sym, ap, ◌∙◌, ◌⊎◌, inl, inr, arith, is_empty,
  is_empty-empty, some, subst,
}
use capi_wx_one.Api.{WxOneCluster, WxOneMachine, CapiMachine, machine_finalizer}
use capi_wx_one.Clients.{WxOneClients}
use capi_wx_one.Effects.{Env, Trace}
use capi_wx_one.Effects.Ends.{
  Ends, Ends-bind, Ends-pure, Ends-if, Ends-deref_bind, Ends-call_bind, Ends-request_bind,
  Ends-weaken, Ends-mono,
}
use capi_wx_one.Effects.History.{Happened, now, earlier, later}
use capi_wx_one.Cluster.Keeps.{connect-Keeps}
use capi_wx_one.Cluster.Accounting.{count}
use capi_wx_one.Machine.Stages.{PatchHelper, instance_id, attachement_id, has_annotation}
use capi_wx_one.Machine.Removal.{
  reconcile_delete, by_hook, tear_down, ensure_detached, ensure_no_instance, drop_instance, release,
  drop_finalizer, is_attached,
}
use capi_wx_one.Machine.Accounting.{stored}
use capi_wx_one.Machine.Teardown.{
  IsInstanceDeletion, deletion_request, Held, Fresh, IsOwner, Waiting, TornDown, Outcomes,
  Fresh-IsClosed, Fresh-Held, new_helper-Fresh, get_owner_machine-Fresh,
}
use capi_wx_one.Machine.Teardown.Hook.{detach-Waiting, untouched-Waiting, remove_hook-HookRemoved}

module _ (env : Env) (start old : WxOneMachine) (n : ℕ) (machine : CapiMachine)
    (clients : WxOneClients) (helper : PatchHelper) (wx : WxOneCluster) where
  -- Between the deletion of the instance and the finalizer's.
  record Emptied (m : WxOneMachine) (t : Trace) : Type 0 where
    same_finalizers : m.meta.finalizers ≡ old.meta.finalizers
    held : Held start old t
    no_instance : is_empty (instance_id m) ≡ true
    instance_gone :
        (is_empty (instance_id old) ≡ true)
        ⊎ Happened (IsInstanceDeletion (instance_id old) wx.status.project.resource_id) t
    withdrawn : is_attached env machine m ≡ false

  drop_instance-Emptied :
      (m : WxOneMachine) (t : Trace)
      → Waiting start old env machine n m t
      → Ends Emptied (Held start old) (drop_instance env clients helper wx m) t
  unfolding drop_instance
  drop_instance-Emptied m t h =
      Ends-request_bind _ _ _ h.steady.held
        (λ answer.
          Ends-call_bind _ _
            (λ _ _. Ends-pure _ (record {
              same_finalizers = h.steady.same_finalizers;
              held = h.steady.same_finalizers;
              no_instance = is_empty-empty;
              instance_gone = inr (earlier (now (h.steady.same_instance, refl)));
              withdrawn = h.withdrawn;
            }))
            (λ _ _. h.steady.held))
        (λ _. h.steady.held)

  -- The instance may stay only if the machine is a control plane machine with an attachement, and
  -- there is none by now.
  ensure_no_instance-Emptied :
      (m : WxOneMachine) (t : Trace)
      → Waiting start old env machine n m t
      → Ends Emptied (Held start old) (ensure_no_instance env clients helper wx machine m) t
  unfolding ensure_no_instance
  ensure_no_instance-Emptied m t h =
      Ends-if
        {b = not (is_empty (instance_id m))
          && ((env.kube.is_control_plane_machine machine && is_empty (attachement_id m))
              || not (env.kube.is_control_plane_machine machine))}
        (λ _. drop_instance-Emptied m t h)
        (λ e.
          let none_left : is_empty (instance_id m) ≡ true = ground (arith, h.withdrawn) in
          Ends-pure m (record {
            same_finalizers = h.steady.same_finalizers;
            held = h.steady.held;
            no_instance = none_left;
            instance_gone = inl (ap is_empty (sym h.steady.same_instance) ∙ none_left);
            withdrawn = h.withdrawn;
          }))

  drop_finalizer-TornDown :
      (m : WxOneMachine) (t : Trace)
      → Emptied m t
      → Ends
          (λ s. TornDown start old env machine wx s.0 s.1)
          (Held start old)
          (drop_finalizer env clients helper wx m)
          t
  unfolding drop_finalizer
  drop_finalizer-TornDown m t h =
      Ends-call_bind _ _
        (λ _ _. Ends-pure _ (record {
          no_instance = h.no_instance;
          instance_gone = later h.instance_gone;
          withdrawn = h.withdrawn;
          finalizer_dropped =
              ap (λ fs. env.kube.remove_finalizer fs machine_finalizer) h.same_finalizers;
          is_stored = refl;
          no_requeue = refl;
        }))
        (λ _ _. h.held)

  tear_down-TornDown :
      (t : Trace)
      → Fresh start old n t
      → Ends
          (λ s. TornDown start old env machine wx s.0 s.1)
          (Held start old)
          (tear_down env clients helper wx machine old)
          t
  unfolding tear_down ensure_detached release
  tear_down-TornDown t h =
      Ends-bind
        (Ends-if {b = is_attached env machine old}
          (λ _. detach-Waiting env start old n machine clients helper wx t h)
          (λ e. Ends-pure old (untouched-Waiting env start old n machine clients helper wx t h e)))
        λ m1 t1 h1. Ends-bind (ensure_no_instance-Emptied m1 t1 h1) λ m2 t2 h2.
          Ends-if {b = is_empty (instance_id m2)} (λ _. drop_finalizer-TornDown m2 t2 h2)
            (λ e. absurd (ground (arith, h2.no_instance)))

-- Let the machine's reconcileDelete run on the object that the API server holds, in any
-- environment. If it ends with an error or a panic, the stored object still has the finalizers
-- that it had. If it returns, it asks for no requeue, and for the owner machine that it looked up
-- one of two things holds. Where that machine carries the pre-drain hook: the API server accepted it
-- without the hook, no control plane machine's attachement is recorded any more, no instance
-- deletion was requested in this run, and the stored object keeps instance and finalizers. Where
-- it does not: no instance is recorded, a request to delete the one that was was answered without
-- an error of the call, and the object is stored with the finalizers that RemoveFinalizer leaves.
pub reconcile_delete-Outcomes :
    (env : Env) (wx : WxOneCluster) (start old : WxOneMachine) (t : Trace)
    → stored start t ≡ old
    → Ends
        (Outcomes start old env wx (count deletion_request t))
        (Held start old)
        (reconcile_delete env wx old)
        t
unfolding reconcile_delete by_hook
reconcile_delete-Outcomes env wx start old t here =
    let n = count deletion_request t in
    Ends-bind (new_helper-Fresh env start old n t (record { is_old = here; no_request = refl }))
      λ helper t1 h1.
        Ends-bind
          (Ends-weaken (connect-Keeps env (Fresh start old n) (Fresh-IsClosed start old n) wx t1 h1)
            (λ _ u p. p) (Fresh-Held start old n))
          λ clients t2 h2.
            Ends-bind (get_owner_machine-Fresh env start old n t2 h2) λ owner t3 (h3, asked).
              Ends-deref_bind (λ _. Fresh-Held start old n t3 h3)
                λ machine e.
                  let found : IsOwner env old (some machine) = subst (IsOwner env old) e asked in
                  Ends-if {b = has_annotation machine.annotations}
                    (λ hook.
                      Ends-mono
                        (remove_hook-HookRemoved env start old n machine clients helper wx t3 h3)
                        λ s u p. (machine, found, inl (hook, p)))
                    (λ no_hook.
                      Ends-mono (tear_down-TornDown env start old n machine clients helper wx t3 h3)
                        λ s u p. (machine, found, inr (no_hook, p)))
