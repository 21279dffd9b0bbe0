-- ===== src/Machine/Removal.antt =====
-- reconcileDelete of the WXOneMachine controller: the route is withdrawn and the hook removed in
-- one reconcile, and the instance is deleted in a later one. Where the source returns both a
-- requeue time and an error, controller-runtime goes by the error alone, and so does the model.
use capi_wx_one.Base.{
  String, Bool, ◌&&◌, ◌||◌, not, Option, none, some, is_empty, remove, Dict, if◌then◌else◌,
}
use capi_wx_one.Api.{WxOneCluster, WxOneMachine, CapiMachine, machine_finalizer}
use capi_wx_one.Graphql.Operations
use capi_wx_one.Graphql.Responses.{Answer}
use capi_wx_one.Clients.{WxOneClients}
use capi_wx_one.Cluster.Stages.{connect}
use capi_wx_one.Effects.{Env, Exec, Reply, ◌>>=◌, ◌>>◌, call, pure, lift, deref, Event, Query}
use capi_wx_one.Machine.Stages.{
  PatchHelper, Result, patch, update, new_helper, has_annotation, pre_drain_hook, instance_id,
  attachement_id, with_attachement_id, with_instance_id, with_finalizers,
}

-- `delete(machine.Annotations, PreDrainHook)`
abbrev pub without_hook : Option (Dict String) → Option (Dict String)
without_hook none = none
without_hook (some d) = some (remove pre_drain_hook d)

module _ (env : Env) where
  -- r.getOwnerMachine
  unfoldable pub get_owner_machine : WxOneMachine → Exec (Option CapiMachine)
  get_owner_machine m =
      call (λ t. env.kube.get_owner_machine t m.meta)
        (λ _. Event.read (Query.owner_machine m.meta.name))

  -- A control plane machine with a recorded attachement.
  abbrev pub is_attached : CapiMachine → WxOneMachine → Bool
  is_attached machine m =
      env.kube.is_control_plane_machine machine && not (is_empty (attachement_id m))

  module _ (clients : WxOneClients) (helper : PatchHelper) (wx : WxOneCluster) where
    abbrev detach_request : WxOneMachine → Exec (Reply (Answer (Option String)))
    detach_request m =
        Operations.delete_floating_group_by_floating_ip_id_and_instance_id env
          clients.graphql_client wx.status.project.resource_id wx.status.floating_ip.resource_id
          (instance_id m)

    unfoldable pub forget_attachement : WxOneMachine → Exec WxOneMachine
    unfolding patch
    forget_attachement m = do let m' = with_attachement_id m ""; patch env helper m'; pure m'

    -- Step 1 under the hook: an error ends the reconcile.
    unfoldable pub withdraw_route : WxOneMachine → Exec WxOneMachine
    withdraw_route m = do r ← detach_request m; lift r; forget_attachement m

    unfoldable pub ensure_withdrawn : CapiMachine → WxOneMachine → Exec WxOneMachine
    ensure_withdrawn machine m = if is_attached machine m then withdraw_route m else pure m

    unfoldable pub remove_hook : CapiMachine → WxOneMachine → Exec (WxOneMachine × Result)
    unfolding update
    remove_hook machine m = do
      m1 ← ensure_withdrawn machine m
      update env (record machine { annotations = without_hook machine.annotations })
      pure (m1, record { requeue_after = 0 })

    -- Without the hook: an error of the request is only logged.
    unfoldable pub detach : WxOneMachine → Exec WxOneMachine
    detach m = do r ← detach_request m; forget_attachement m

    unfoldable pub ensure_detached : CapiMachine → WxOneMachine → Exec WxOneMachine
    ensure_detached machine m = if is_attached machine m then detach m else pure m

    unfoldable pub drop_instance : WxOneMachine → Exec WxOneMachine
    unfolding Operations.delete_instance patch
    drop_instance m = do
      Operations.delete_instance env clients.graphql_client (instance_id m)
          wx.status.project.resource_id
      let m' = with_instance_id m ""
      patch env helper m'
      pure m'

    unfoldable pub ensure_no_instance : CapiMachine → WxOneMachine → Exec WxOneMachine
    ensure_no_instance machine m =
        if not (is_empty (instance_id m))
          && ((env.kube.is_control_plane_machine machine && is_empty (attachement_id m))
              || not (env.kube.is_control_plane_machine machine))
        then drop_instance m
        else pure m

    unfoldable pub drop_finalizer : WxOneMachine → Exec (WxOneMachine × Result)
    unfolding patch
    drop_finalizer m = do
      let m' = with_finalizers m (env.kube.remove_finalizer m.meta.finalizers machine_finalizer)
      patch env helper m'
      pure (m', record { requeue_after = 0 })

    unfoldable pub release : WxOneMachine → Exec (WxOneMachine × Result)
    release m =
        if is_empty (instance_id m)
        then drop_finalizer m
        else pure (m, record { requeue_after = 10 })

    unfoldable pub tear_down : CapiMachine → WxOneMachine → Exec (WxOneMachine × Result)
    tear_down machine m = do
      m1 ← ensure_detached machine m
      m2 ← ensure_no_instance machine m1
      release m2

    -- The owner is looked up again; a missing one is dereferenced.
    unfoldable pub by_hook : CapiMachine → WxOneMachine → Exec (WxOneMachine × Result)
    by_hook machine m =
        if has_annotation machine.annotations then remove_hook machine m else tear_down machine m

  unfoldable pub reconcile_delete : WxOneCluster → WxOneMachine → Exec (WxOneMachine × Result)
  reconcile_delete wx m = do
    helper ← new_helper env m
    clients ← connect env wx
    owner ← get_owner_machine m
    machine ← deref owner
    by_hook clients helper wx machine m
