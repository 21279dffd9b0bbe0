-- ===== src/Machine/Guarded/Normal.antt =====
-- The parts of reconcileNormal of the WXOneMachine controller, and the request for an instance.
use capi_wx_one.Base.{
  String, true, false, Option, none, some, ◌≡◌, ap, ◌∙◌, inl, inr, contains_key, lookup, insert,
  lookup-insert, eq_refl, Dict, if◌then◌else◌,
}
use capi_wx_one.Api.{WxOneCluster, WxOneMachine, CapiCluster, CapiMachine, machine_finalizer}
use capi_wx_one.Graphql.Operations
use capi_wx_one.Graphql.Responses.{CreatedInstance}
use capi_wx_one.Clients.{WxOneClients}
use capi_wx_one.Effects.{Env, Trace, pure, ◌>>=◌}
use capi_wx_one.Effects.History.{now, later}
use capi_wx_one.Effects.Ends.{
  Ends, Ends-bind, Ends-pure, Ends-if, Ends-embed, Ends-call_reply, Ends-call_bind, Ends-deref_bind,
  Ends-first_bind, Ends-request_bind, Ends-consult, Ends-trace,
}
use capi_wx_one.Cluster.Guarded.{contains, AddsFinalizer}
use capi_wx_one.Machine.Stages
use capi_wx_one.Machine.Stages.{PatchHelper, Result, patch, has_annotation, annotate}
use capi_wx_one.Machine.Walk.{Walk, connected-Walk, read_addresses-Walk, bootstrap_data-Walk}
use capi_wx_one.Machine.Guarded.{Hooked, AllGuarded, Covered, Covered-IsClosed}
use capi_wx_one.Machine.Reconciler.{reconcile_normal}

contains_key-insert : (k v : String) (d : Dict String) → contains_key k (insert k v d) ≡ true
contains_key-insert k v d =
    ap (λ o. elim o [ none ↦ false | some _ ↦ true ])
      (lookup-insert k k v d ∙ ap (λ b. if b then some v else lookup k d) (eq_refl k))

annotate-has_annotation : (d : Option (Dict String)) → has_annotation (some (annotate d)) ≡ true
annotate-has_annotation none = contains_key-insert _ _ _
annotate-has_annotation (some d) = contains_key-insert _ _ _

module _ (machine : CapiMachine) (start : WxOneMachine) where
  abbrev Held : WxOneMachine → Trace → Type 0
  Held = Covered machine start

  abbrev Kept : Trace → Type 0
  Kept = AllGuarded machine start

  -- With the controller's answer beside the object.
  abbrev HeldResult : WxOneMachine × Result → Trace → Type 0
  HeldResult s = Held s.0

  module _ (env : Env) where
    patch-Held :
        (helper : PatchHelper) (m : WxOneMachine) (t : Trace)
        → contains machine_finalizer m.meta.finalizers ≡ true
        → Hooked machine t
        → Kept t
        → Ends (λ _. Held m) Kept (patch env helper m) t
    unfolding patch
    patch-Held helper m t has hook h =
        Ends-call_reply _ _
          (λ _. record { memory = has; server = has; hooked = later hook; guarded = (tt, h) })
          (λ _. (tt, h))

    send :
        (helper : PatchHelper) (m : WxOneMachine) (t : Trace)
        → contains machine_finalizer m.meta.finalizers ≡ true
        → Hooked machine t
        → Kept t
        → Ends Held Kept (patch env helper m >>= λ _. pure m) t
    send helper m t has hook h =
        Ends-bind (patch-Held helper m t has hook h) λ _ t1 h1. Ends-pure m h1

    ensure_hook-Hooked :
        (t : Trace)
        → Kept t
        → Ends (λ _ u. Hooked machine u × Kept u) Kept (Stages.ensure_hook env machine) t
    unfolding Stages.ensure_hook Stages.update
    ensure_hook-Hooked t h =
        Ends-if {b = has_annotation machine.annotations} (λ e. Ends-pure _ (inl e, h))
          (λ _.
            Ends-call_reply _ _
              (λ _. (inr (now (annotate-has_annotation machine.annotations)), (tt, h)))
              (λ _. (tt, h)))

    new_helper-Hooked :
        (m : WxOneMachine) (t : Trace)
        → Hooked machine t
        → Kept t
        → Ends (λ _ u. Hooked machine u × Kept u) Kept (Stages.new_helper env m) t
    unfolding Stages.new_helper
    new_helper-Hooked m t hook h =
        Ends-bind (Ends-consult {Q = λ _ u. Hooked machine u × Kept u} _ h (λ _ _. (hook, h)))
          λ _ t1 h1. Ends-pure _ h1

    add_finalizer-Held :
        (helper : PatchHelper) (m : WxOneMachine) (t : Trace)
        → AddsFinalizer env
        → Hooked machine t
        → Kept t
        → Ends Held Kept (Stages.add_finalizer env helper m) t
    unfolding Stages.add_finalizer
    add_finalizer-Held helper m t adds hook h =
        send helper _ t (adds m.meta.finalizers machine_finalizer) hook h

    module _ (clients : WxOneClients) (helper : PatchHelper) (wx : WxOneCluster) where
      -- WX-ONE made an instance, and its answer is in the trace.
      record_instance-Held :
          (m : WxOneMachine) (made : CreatedInstance) (t : Trace)
          → Held m t
          → Ends Held Kept (Stages.record_instance env clients helper wx m made) t
      unfolding Stages.record_instance
      record_instance-Held m made t h =
          Ends-bind (read_addresses-Walk env (Held m) Kept (λ u p. p.guarded) made.addresses t h)
            λ addresses t1 h1. send helper _ t1 h1.memory h1.hooked h1.guarded

      make_instance-Held :
          (of : CapiMachine) (secret : String) (m : WxOneMachine) (t : Trace)
          → Held m t
          → Ends Held Kept (Stages.make_instance env clients helper wx of secret m) t
      unfolding Stages.make_instance Operations.create_instance
      make_instance-Held of secret m t h =
          Ends-call_bind _ _
            (λ s _.
              Ends-bind
                (bootstrap_data-Walk env (Held m) Kept (λ u p. p.guarded) _ _
                  ((Covered-IsClosed machine start m).read_closed _ t h))
                λ value t1 h1.
                  Ends-bind {Q = λ _. Held m} (Ends-embed h1.guarded (λ _ _. h1)) λ raw t2 h2.
                    Ends-request_bind _ _ _ h2.guarded
                      (λ answer.
                        Ends-deref_bind (λ _. ((h2.server, h2.hooked), h2.guarded))
                          λ payload _.
                            Ends-deref_bind (λ _. ((h2.server, h2.hooked), h2.guarded))
                              λ made _. record_instance-Held m made _ (record {
                                memory = h2.memory;
                                server = h2.server;
                                hooked = later h2.hooked;
                                guarded = ((h2.server, h2.hooked), h2.guarded);
                              }))
                      (λ _. ((h2.server, h2.hooked), h2.guarded)))
            (λ _ _. (tt, h.guarded))

      attach-Held :
          (m : WxOneMachine) (t : Trace)
          → Held m t
          → Ends Held Kept (Stages.attach env clients helper wx m) t
      unfolding Stages.attach
      attach-Held m t h =
          Ends-request_bind _ _ _ h.guarded
            (λ answer.
              Ends-deref_bind (λ _. (tt, h.guarded))
                λ payload _.
                  Ends-first_bind (λ _. (tt, h.guarded))
                    λ entry rest _.
                      Ends-deref_bind (λ _. (tt, h.guarded))
                        λ member _. send helper _ _ h.memory (later h.hooked) (tt, h.guarded))
            (λ _. (tt, h.guarded))

    Held-Walk : Walk env Held Kept
    Held-Walk = record {
      stops = λ h. h.guarded;
      closed = Covered-IsClosed machine start;
      flavor = λ helper m id t h. patch-Held helper _ t h.memory h.hooked h.guarded;
      image = λ helper m id t h. patch-Held helper _ t h.memory h.hooked h.guarded;
      ready = λ helper m t running h. patch-Held helper _ t h.memory h.hooked h.guarded;
      instance_made = λ clients helper wx of secret m t unset h.
          make_instance-Held clients helper wx of secret m t h;
      attached = λ clients helper wx m t unset h. attach-Held clients helper wx m t h;
    }

-- Let AddFinalizer put the finalizer into the list. From any object and whatever the API server and
-- WX-ONE answer, let a trace be one in which, at each request for an instance, the API server held
-- the machine's finalizer and the owner had the pre-drain hook, either when it was read or by an
-- update that the server took. However reconcileNormal ends, the same is true of the longer trace.
pub machine_normal-AllGuarded :
    (env : Env) (cluster : CapiCluster) (wx : WxOneCluster) (machine : CapiMachine)
    (start m : WxOneMachine) (t : Trace)
    → AddsFinalizer env
    → AllGuarded machine start t
    → AllGuarded machine start (reconcile_normal env cluster wx machine m t).1
unfolding reconcile_normal
machine_normal-AllGuarded env cluster wx machine start m t adds h =
    Ends-trace {Q = HeldResult machine start} (λ _ u p. p.guarded) (λ u p. p)
      (Ends-bind (ensure_hook-Hooked machine start env t h) λ machine' t1 h1.
        Ends-bind (new_helper-Hooked machine start env m t1 h1.0 h1.1) λ helper t2 h2.
          Ends-bind (add_finalizer-Held machine start env helper m t2 adds h2.0 h2.1) λ m1 t3 h3.
            connected-Walk env (Covered machine start) (AllGuarded machine start)
              (Held-Walk machine start env) wx helper cluster.infrastructure_ready machine' m1 t3
              h3)
