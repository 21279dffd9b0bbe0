-- ===== src/Machine/Patches/Deletion.antt =====
-- The patches of reconcileDelete of the WXOneMachine controller.
use capi_wx_one.Base.{not, ◌&&◌, ◌||◌, is_empty}
use capi_wx_one.Api.{WxOneCluster, WxOneMachine, CapiMachine}
use capi_wx_one.Graphql.Operations
use capi_wx_one.Clients.{WxOneClients}
use capi_wx_one.Effects.{Env, Trace}
use capi_wx_one.Effects.Ends.{
  Ends, Ends-bind, Ends-pure, Ends-if, Ends-lift, Ends-call, Ends-call_bind, Ends-attempt,
  Ends-deref_bind, Ends-request_bind,
}
use capi_wx_one.Machine.Stages.{PatchHelper, instance_id, attachement_id, has_annotation}
use capi_wx_one.Machine.Patches.{
  AllFine, IsKept, Good, GoodResult, send, patch-Good, new_helper-Good, connect-Good,
}
use capi_wx_one.Machine.Removal.{is_attached}
use capi_wx_one.Machine.Removal

module _ (P : WxOneMachine → Trace → Type 0) (kept : IsKept P) (env : Env) where
  module _ (clients : WxOneClients) (helper : PatchHelper) (wx : WxOneCluster) where
    detach_request-Good :
        (m : WxOneMachine) (t : Trace)
        → Good P kept m t
        → Ends
            (λ _. Good P kept m)
            (AllFine P)
            (Operations.delete_floating_group_by_floating_ip_id_and_instance_id env
              clients.graphql_client wx.status.project.resource_id wx.status.floating_ip.resource_id
              (instance_id m))
            t
    unfolding Operations.delete_floating_group_by_floating_ip_id_and_instance_id
    detach_request-Good m t h =
        Ends-deref_bind (λ _. h.sent)
          λ c _. Ends-attempt _ _ (record { memory = kept.later _ h.memory; sent = (tt, h.sent) })

    forget_attachement-Good :
        (m : WxOneMachine) (t : Trace)
        → Good P kept m t
        → Ends (Good P kept) (AllFine P) (Removal.forget_attachement env clients helper wx m) t
    unfolding Removal.forget_attachement
    forget_attachement-Good m t h =
        send P kept env clients helper wx _ t (kept.attachement m "" t h.memory) h.sent

    withdraw_route-Good :
        (m : WxOneMachine) (t : Trace)
        → Good P kept m t
        → Ends (Good P kept) (AllFine P) (Removal.withdraw_route env clients helper wx m) t
    unfolding Removal.withdraw_route
    withdraw_route-Good m t h = Ends-bind (detach_request-Good m t h) λ r t1 h1.
        Ends-bind {Q = λ _. Good P kept m} (Ends-lift h1.sent (λ _ _. h1))
          λ answer t2 h2. forget_attachement-Good m t2 h2

    detach-Good :
        (m : WxOneMachine) (t : Trace)
        → Good P kept m t
        → Ends (Good P kept) (AllFine P) (Removal.detach env clients helper wx m) t
    unfolding Removal.detach
    detach-Good m t h =
        Ends-bind (detach_request-Good m t h) λ r t1 h1. forget_attachement-Good m t1 h1

    remove_hook-Good :
        (machine : CapiMachine) (m : WxOneMachine) (t : Trace)
        → Good P kept m t
        → Ends
            (GoodResult P kept)
            (AllFine P)
            (Removal.remove_hook env clients helper wx machine m)
            t
    unfolding Removal.remove_hook Removal.ensure_withdrawn
    remove_hook-Good machine m t h =
        Ends-bind
          (Ends-if {b = is_attached env machine m} (λ _. withdraw_route-Good m t h)
            (λ _. Ends-pure m h))
          λ m1 t1 h1.
            Ends-call_bind _ _
              (λ _ _.
                Ends-pure _ (record { memory = kept.later _ h1.memory; sent = (tt, h1.sent) }))
              (λ _ _. (tt, h1.sent))

    drop_instance-Good :
        (m : WxOneMachine) (t : Trace)
        → Good P kept m t
        → Ends (Good P kept) (AllFine P) (Removal.drop_instance env clients helper wx m) t
    unfolding Removal.drop_instance
    drop_instance-Good m t h =
        Ends-request_bind _ _ _ h.sent
          (λ _.
            send P kept env clients helper wx _ _
              (kept.instance_dropped m _ (kept.later _ h.memory)) (tt, h.sent))
          (λ _. (tt, h.sent))

    drop_finalizer-Good :
        (m : WxOneMachine) (t : Trace)
        → Good P kept m t
        → Ends (GoodResult P kept) (AllFine P) (Removal.drop_finalizer env clients helper wx m) t
    unfolding Removal.drop_finalizer
    drop_finalizer-Good m t h =
        Ends-bind (patch-Good P kept env helper _ t (kept.finalizers m _ t h.memory) h.sent)
          λ _ t1 h1. Ends-pure _ h1

    tear_down-Good :
        (machine : CapiMachine) (m : WxOneMachine) (t : Trace)
        → Good P kept m t
        → Ends (GoodResult P kept) (AllFine P) (Removal.tear_down env clients helper wx machine m) t
    unfolding Removal.tear_down Removal.ensure_detached Removal.ensure_no_instance Removal.release
    tear_down-Good machine m t h =
        Ends-bind
          (Ends-if {b = is_attached env machine m} (λ _. detach-Good m t h) (λ _. Ends-pure m h))
          λ m1 t1 h1.
            Ends-bind
              (Ends-if
                {b = not (is_empty (instance_id m1))
                  && ((env.kube.is_control_plane_machine machine && is_empty (attachement_id m1))
                      || not (env.kube.is_control_plane_machine machine))}
                (λ _. drop_instance-Good m1 t1 h1) (λ _. Ends-pure m1 h1))
              λ m2 t2 h2.
                Ends-if {b = is_empty (instance_id m2)} (λ _. drop_finalizer-Good m2 t2 h2)
                  (λ _. Ends-pure (m2, record { requeue_after = 10 }) h2)

    by_hook-Good :
        (machine : CapiMachine) (m : WxOneMachine) (t : Trace)
        → Good P kept m t
        → Ends (GoodResult P kept) (AllFine P) (Removal.by_hook env clients helper wx machine m) t
    unfolding Removal.by_hook
    by_hook-Good machine m t h =
        Ends-if {b = has_annotation machine.annotations} (λ _. remove_hook-Good machine m t h)
          (λ _. tear_down-Good machine m t h)

  get_owner_machine-Good :
      (m : WxOneMachine) (t : Trace)
      → Good P kept m t
      → Ends (λ _. Good P kept m) (AllFine P) (Removal.get_owner_machine env m) t
  unfolding Removal.get_owner_machine
  get_owner_machine-Good m t h =
      Ends-call _ _ (λ _ _. record { memory = kept.later _ h.memory; sent = (tt, h.sent) })
        (λ _ _. (tt, h.sent))

  pub reconcile_delete-Good :
      (wx : WxOneCluster) (m : WxOneMachine) (t : Trace)
      → Good P kept m t
      → Ends (GoodResult P kept) (AllFine P) (Removal.reconcile_delete env wx m) t
  unfolding Removal.reconcile_delete
  reconcile_delete-Good wx m t h = Ends-bind (new_helper-Good P kept env m t h) λ helper t1 h1.
      Ends-bind (connect-Good P kept env wx m t1 h1) λ clients t2 h2.
        Ends-bind (get_owner_machine-Good m t2 h2) λ owner t3 h3.
          Ends-deref_bind (λ _. h3.sent) λ machine _. by_hook-Good clients helper wx machine m t3 h3
