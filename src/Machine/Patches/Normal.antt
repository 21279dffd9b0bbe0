-- ===== src/Machine/Patches/Normal.antt =====
-- The patches of reconcileNormal of the WXOneMachine controller.
use capi_wx_one.Base.{String}
use capi_wx_one.Api.{WxOneCluster, WxOneMachine, CapiCluster, CapiMachine}
use capi_wx_one.Graphql.Operations
use capi_wx_one.Graphql.Responses.{CreatedInstance}
use capi_wx_one.Clients.{WxOneClients}
use capi_wx_one.Effects.{Env, Trace}
use capi_wx_one.Effects.Ends.{
  Ends, Ends-bind, Ends-embed, Ends-call_bind, Ends-deref_bind, Ends-first_bind, Ends-request_bind,
}
use capi_wx_one.Machine.Stages
use capi_wx_one.Machine.Stages.{
  PatchHelper, is_control_plane, flavor_id, image_id, instance_id, attachement_id, has_annotation,
}
use capi_wx_one.Machine.Patches.{
  AllFine, IsKept, Good, GoodResult, send, patch-Good, new_helper-Good, ensure_hook-Good,
  add_finalizer-Good, Good-IsClosed,
}
use capi_wx_one.Machine.Reconciler.{reconcile_normal}
use capi_wx_one.Machine.Walk.{Walk, connected-Walk, read_addresses-Walk, bootstrap_data-Walk}

module _ (P : WxOneMachine → Trace → Type 0) (kept : IsKept P) (env : Env) where
  module _ (clients : WxOneClients) (helper : PatchHelper) (wx : WxOneCluster) where
    record_instance-Good :
        (m : WxOneMachine) (made : CreatedInstance) (t : Trace)
        → Good P kept m t
        → Ends (Good P kept) (AllFine P) (Stages.record_instance env clients helper wx m made) t
    unfolding Stages.record_instance
    record_instance-Good m made t h =
        Ends-bind
          (read_addresses-Walk env (Good P kept m) (AllFine P) (λ u p. p.sent) made.addresses t h)
          λ addresses t1 h1.
            send P kept env clients helper wx _ t1
              (kept.instance_made m made.id addresses t1 h1.memory) h1.sent

    make_instance-Good :
        (machine : CapiMachine) (secret : String) (m : WxOneMachine) (t : Trace)
        → Good P kept m t
        → Ends
            (Good P kept)
            (AllFine P)
            (Stages.make_instance env clients helper wx machine secret m)
            t
    unfolding Stages.make_instance Operations.create_instance
    make_instance-Good machine secret m t h =
        Ends-call_bind _ _
          (λ s _.
            Ends-bind
              (bootstrap_data-Walk env (Good P kept m) (AllFine P) (λ u p. p.sent) _ _
                (record { memory = kept.later _ h.memory; sent = (tt, h.sent) }))
              λ value t1 h1.
                Ends-bind {Q = λ _. Good P kept m} (Ends-embed h1.sent (λ _ _. h1)) λ raw t2 h2.
                  Ends-request_bind _ _ _ h2.sent
                    (λ answer.
                      Ends-deref_bind (λ _. (tt, h2.sent))
                        λ payload _.
                          Ends-deref_bind (λ _. (tt, h2.sent))
                            λ made _.
                              record_instance-Good m made _
                                (record { memory = kept.later _ h2.memory; sent = (tt, h2.sent) }))
                    (λ _. (tt, h2.sent)))
          (λ _ _. (tt, h.sent))

    attach-Good :
        (m : WxOneMachine) (t : Trace)
        → Good P kept m t
        → Ends (Good P kept) (AllFine P) (Stages.attach env clients helper wx m) t
    unfolding Stages.attach
    attach-Good m t h =
        Ends-request_bind _ _ _ h.sent
          (λ answer.
            Ends-deref_bind (λ _. (tt, h.sent))
              λ payload _.
                Ends-first_bind (λ _. (tt, h.sent))
                  λ entry rest _.
                    Ends-deref_bind (λ _. (tt, h.sent))
                      λ member _.
                        send P kept env clients helper wx _ _
                          (kept.attachement m member.id _ (kept.later _ h.memory)) (tt, h.sent))
          (λ _. (tt, h.sent))

  Good-Walk : Walk env (Good P kept) (AllFine P)
  Good-Walk = record {
    stops = λ h. h.sent;
    closed = Good-IsClosed P kept;
    flavor =
        λ helper m id t h. patch-Good P kept env helper _ t (kept.flavor m id t h.memory) h.sent;
    image = λ helper m id t h. patch-Good P kept env helper _ t (kept.image m id t h.memory) h.sent;
    ready = λ helper m t running h.
        patch-Good P kept env helper _ t (kept.ready m t running h.memory) h.sent;
    instance_made = λ clients helper wx machine secret m t unset h.
        make_instance-Good clients helper wx machine secret m t h;
    attached = λ clients helper wx m t unset h. attach-Good clients helper wx m t h;
  }

  pub reconcile_normal-Good :
      (cluster : CapiCluster) (wx : WxOneCluster) (machine : CapiMachine) (m : WxOneMachine)
      (t : Trace)
      → Good P kept m t
      → Ends (GoodResult P kept) (AllFine P) (reconcile_normal env cluster wx machine m) t
  unfolding reconcile_normal
  reconcile_normal-Good cluster wx machine m t h =
      Ends-bind (ensure_hook-Good P kept env machine m t h) λ machine' t1 h1.
        Ends-bind (new_helper-Good P kept env m t1 h1) λ helper t2 h2.
          Ends-bind (add_finalizer-Good P kept env helper m t2 h2) λ m1 t3 h3.
            connected-Walk env (Good P kept) (AllFine P) Good-Walk wx helper
              cluster.infrastructure_ready machine' m1 t3 h3
