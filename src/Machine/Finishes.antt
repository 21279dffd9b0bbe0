-- ===== src/Machine/Finishes.antt =====
-- The machine's reconcileDelete against servers that answer.
use capi_wx_one.Base.{String, Option, some, ◌≡◌, refl, is_empty, ◌&&◌, ◌||◌, not}
use capi_wx_one.Api.{WxOneCluster, WxOneMachine, CapiMachine, ObjectMeta}
use capi_wx_one.Graphql.Inputs.{DeleteInstanceInput, DeleteFloatingGroupInput}
use capi_wx_one.Graphql.Responses.{Answer}
use capi_wx_one.Graphql.Operations
use capi_wx_one.Clients.{WxOneClients}
use capi_wx_one.Effects.{Env, Trace, done, GraphqlClient}
use capi_wx_one.Effects.Ends.{Ends, Ends-bind, Ends-pure, Ends-if, Ends-returns, Ends-attempt}
use capi_wx_one.Effects.Known.{
  Ends-call_done, Ends-request_done, Ends-consult_done, Ends-lift_done, Ends-deref_known,
}
use capi_wx_one.Cluster.Accounting.{count}
use capi_wx_one.Cluster.Progress.{Serves, connect-returns}
use capi_wx_one.Machine.Stages
use capi_wx_one.Machine.Stages.{PatchHelper, has_annotation, instance_id, attachement_id}
use capi_wx_one.Machine.Removal
use capi_wx_one.Machine.Removal.{is_attached, reconcile_delete}
use capi_wx_one.Machine.Accounting.{stored}
use capi_wx_one.Machine.Teardown.{Outcomes, deletion_request}
use capi_wx_one.Machine.Teardown.Run.{reconcile_delete-Outcomes}

-- The owner machine is found, and every call of a deletion succeeds.
pub record Removes (env : Env) : Type 0 where
  pub serves : Serves env
  pub helps : (t : Trace) (m : WxOneMachine) → env.kube.new_machine_helper t m ≡ done tt
  pub patches : (t : Trace) (before m : WxOneMachine) → env.kube.patch_machine t before m ≡ done tt
  pub updates :
      (t : Trace) (m : CapiMachine) → (got : CapiMachine) × (env.kube.update_machine t m ≡ done got)
  pub owner :
      (t : Trace) (meta : ObjectMeta)
      → (m : CapiMachine) × (env.kube.get_owner_machine t meta ≡ done (some m))
  pub instance_deleted :
      (t : Trace) (c : GraphqlClient) (input : DeleteInstanceInput)
      → (a : Answer (Option String)) × (env.api.delete_instance t c input ≡ done a)
  pub detached :
      (t : Trace) (c : GraphqlClient) (input : DeleteFloatingGroupInput)
      → (a : Answer (Option String)) × (env.api.delete_floating_group t c input ≡ done a)

module _ (env : Env) (removes : Removes env) where
  module _ (clients : WxOneClients) (g : GraphqlClient) (there : clients.graphql_client ≡ some g)
      (helper : PatchHelper) (wx : WxOneCluster) where
    detach_request-returns :
        (m : WxOneMachine) (t : Trace)
        → Ends
            (λ r _. (a : Answer (Option String)) × (r ≡ done a))
            (λ _. ⊥)
            (Operations.delete_floating_group_by_floating_ip_id_and_instance_id env
              clients.graphql_client wx.status.project.resource_id wx.status.floating_ip.resource_id
              (instance_id m))
            t
    unfolding Operations.delete_floating_group_by_floating_ip_id_and_instance_id
    detach_request-returns m t =
        Ends-deref_known _ g there (Ends-attempt _ _ (removes.detached t g _))

    forget_attachement-returns :
        (m : WxOneMachine) (t : Trace)
        → Ends (λ _ _. Unit {0}) (λ _. ⊥) (Removal.forget_attachement env clients helper wx m) t
    unfolding Removal.forget_attachement
    forget_attachement-returns m t =
        Ends-call_done _ tt _ _ (removes.patches _ _ _) (Ends-pure _ tt)

    withdraw_route-returns :
        (m : WxOneMachine) (t : Trace)
        → Ends (λ _ _. Unit {0}) (λ _. ⊥) (Removal.withdraw_route env clients helper wx m) t
    unfolding Removal.withdraw_route
    withdraw_route-returns m t =
        Ends-bind (detach_request-returns m t)
          λ r t1 (a, answered). Ends-lift_done _ a answered (forget_attachement-returns m t1)

    detach-returns :
        (m : WxOneMachine) (t : Trace)
        → Ends (λ _ _. Unit {0}) (λ _. ⊥) (Removal.detach env clients helper wx m) t
    unfolding Removal.detach
    detach-returns m t =
        Ends-bind (detach_request-returns m t) λ r t1 _. forget_attachement-returns m t1

    remove_hook-returns :
        (machine : CapiMachine) (m : WxOneMachine) (t : Trace)
        → Ends (λ _ _. Unit {0}) (λ _. ⊥) (Removal.remove_hook env clients helper wx machine m) t
    unfolding Removal.remove_hook Removal.ensure_withdrawn
    remove_hook-returns machine m t =
        Ends-bind
          (Ends-if {b = is_attached env machine m} (λ _. withdraw_route-returns m t)
            (λ _. Ends-pure m tt))
          λ m1 t1 _.
            let (got, updated) = removes.updates t1 _ in
            Ends-call_done _ got _ _ updated (Ends-pure _ tt)

    drop_instance-returns :
        (m : WxOneMachine) (t : Trace)
        → Ends (λ _ _. Unit {0}) (λ _. ⊥) (Removal.drop_instance env clients helper wx m) t
    unfolding Removal.drop_instance
    drop_instance-returns m t =
        let (a, answered) = removes.instance_deleted t g _ in
        Ends-request_done _ a g _ _ there answered
          (Ends-call_done _ tt _ _ (removes.patches _ _ _) (Ends-pure _ tt))

    release-returns :
        (m : WxOneMachine) (t : Trace)
        → Ends (λ _ _. Unit {0}) (λ _. ⊥) (Removal.release env clients helper wx m) t
    unfolding Removal.release Removal.drop_finalizer
    release-returns m t =
        Ends-if {b = is_empty (instance_id m)}
          (λ _. Ends-call_done _ tt _ _ (removes.patches _ _ _) (Ends-pure _ tt))
          (λ _. Ends-pure _ tt)

    tear_down-returns :
        (machine : CapiMachine) (m : WxOneMachine) (t : Trace)
        → Ends (λ _ _. Unit {0}) (λ _. ⊥) (Removal.tear_down env clients helper wx machine m) t
    unfolding Removal.tear_down Removal.ensure_detached Removal.ensure_no_instance
    tear_down-returns machine m t =
        Ends-bind
          (Ends-if {b = is_attached env machine m} (λ _. detach-returns m t) (λ _. Ends-pure m tt))
          λ m1 t1 _.
            Ends-bind
              (Ends-if
                {b = not (is_empty (instance_id m1))
                  && ((env.kube.is_control_plane_machine machine && is_empty (attachement_id m1))
                      || not (env.kube.is_control_plane_machine machine))}
                (λ _. drop_instance-returns m1 t1) (λ _. Ends-pure m1 tt))
              λ m2 t2 _. release-returns m2 t2

    by_hook-returns :
        (machine : CapiMachine) (m : WxOneMachine) (t : Trace)
        → Ends (λ _ _. Unit {0}) (λ _. ⊥) (Removal.by_hook env clients helper wx machine m) t
    unfolding Removal.by_hook
    by_hook-returns machine m t =
        Ends-if {b = has_annotation machine.annotations} (λ _. remove_hook-returns machine m t)
          (λ _. tear_down-returns machine m t)

  new_helper-returns :
      (m : WxOneMachine) (t : Trace) → Ends (λ _ _. Unit {0}) (λ _. ⊥) (Stages.new_helper env m) t
  unfolding Stages.new_helper
  new_helper-returns m t = Ends-consult_done _ tt _ (removes.helps t m) (Ends-pure _ tt)

  reconcile_delete-returns :
      (wx : WxOneCluster) (m : WxOneMachine) (t : Trace)
      → Ends (λ _ _. Unit {0}) (λ _. ⊥) (reconcile_delete env wx m) t
  unfolding reconcile_delete Removal.get_owner_machine
  reconcile_delete-returns wx m t = Ends-bind (new_helper-returns m t) λ helper t1 _.
      Ends-bind (connect-returns env removes.serves wx t1) λ clients t2 (g, there).
        let (machine, found) = removes.owner t2 m.meta in
        Ends-call_done _ (some machine) _ _ found
          (Ends-deref_known _ machine refl (by_hook-returns clients g there helper wx machine m _))

-- Where the owner machine is found, every call to the API server succeeds, the login is accepted
-- and WX-ONE answers each deletion, one run of the machine's reconcileDelete on the stored object
-- returns without an error or a panic, and with one of the two ends: the hook removed and the
-- route withdrawn, with the instance kept, or no instance recorded, the deletion of the one that
-- was requested, and the object stored with the finalizers that RemoveFinalizer leaves.
pub machine_delete-finishes :
    (env : Env) (wx : WxOneCluster) (start old : WxOneMachine) (t : Trace)
    → stored start t ≡ old
    → Removes env
    → Ends
        (Outcomes start old env wx (count deletion_request t))
        (λ _. ⊥)
        (reconcile_delete env wx old)
        t
machine_delete-finishes env wx start old t here removes =
    Ends-returns (reconcile_delete-Outcomes env wx start old t here)
      (reconcile_delete-returns env removes wx old t)
