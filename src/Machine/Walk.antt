-- ===== src/Machine/Walk.antt =====
-- reconcileNormal of a machine, for any condition on the object in memory and the trace: what has to
-- be known of each write of the controller, and the parts of which that is enough.
use capi_wx_one.Base.{
  String, Bool, true, false, Option, none, some, List, [], ◌∷◌, ◌==◌, not, ◌&&◌, ◌||◌, is_empty,
  ◌≡◌, ap, ◌∙◌, eq_iff, arith,
}
use capi_wx_one.Api.{WxOneCluster, WxOneMachine, CapiMachine}
use capi_wx_one.Graphql.Inputs.{GetInstanceInput}
use capi_wx_one.Graphql.Operations
use capi_wx_one.Graphql.Responses.{
  ListedImage, instance_status_running, Answer, Payload, FoundInstance,
}
use capi_wx_one.Clients.{WxOneClients}
use capi_wx_one.Effects.{Env, Trace, Event, asked, done, instance_of, ◌>>=◌}
use capi_wx_one.Effects.History.{Happened, now}
use capi_wx_one.Effects.Ends.{
  Ends, IsClosed, Ends-bind, Ends-pure, Ends-throw, Ends-if, Ends-deref_bind, Ends-request_bind,
  Ends-weaken,
}
use capi_wx_one.Cluster.Stages.{connect}
use capi_wx_one.Cluster.Keeps.{connect-Keeps}
use capi_wx_one.Machine.Stages
use capi_wx_one.Machine.Stages.{
  PatchHelper, Result, patch, is_control_plane, flavor_id, image_id, instance_id, attachement_id,
  with_flavor_id, with_image_id, with_ready,
}
use capi_wx_one.Machine.Reconciler.{provision, with_bootstrap, when_infrastructure_ready}

-- WX-ONE answered that an instance runs.
abbrev pub IsRunning : Event → Type 0
IsRunning (asked (instance_of input (done (some p)))) =
    (i : FoundInstance) × (p.msg ≡ some i) × (i.status ≡ instance_status_running)
IsRunning e = ⊥

is_running :
    (input : GetInstanceInput) (answer : Answer (Option FoundInstance))
    (p : Payload (Option FoundInstance)) (found : FoundInstance)
    → answer ≡ some p
    → p.msg ≡ some found
    → (found.status == instance_status_running) ≡ true
    → IsRunning (asked (instance_of input (done answer)))
is_running input none p found e1 e2 e3 = absurd cc
is_running input (some p') p found e1 e2 e3 =
    let same : p' ≡ p = cc in
    (
      found,
      ap (λ (q : Payload (Option FoundInstance)). q.msg) same ∙ e2,
      (eq_iff found.status instance_status_running).0 e3,
    )

-- `Q` holds between the parts, of the object in memory, and `E` where a part stops. The ready flag
-- is set after an answer that the instance runs.
pub record Walk (env : Env) (Q : WxOneMachine → Trace → Type 0) (E : Trace → Type 0) : Type 0 where
  pub stops : {m : WxOneMachine} {t : Trace} → Q m t → E t
  pub closed : (m : WxOneMachine) → IsClosed (Q m)
  pub flavor :
      (helper : PatchHelper) (m : WxOneMachine) (id : String) (t : Trace)
      → Q m t
      → Ends (λ _. Q (with_flavor_id m id)) E (patch env helper (with_flavor_id m id)) t
  pub image :
      (helper : PatchHelper) (m : WxOneMachine) (id : String) (t : Trace)
      → Q m t
      → Ends (λ _. Q (with_image_id m id)) E (patch env helper (with_image_id m id)) t
  pub ready :
      (helper : PatchHelper) (m : WxOneMachine) (t : Trace)
      → Happened IsRunning t
      → Q m t
      → Ends (λ _. Q (with_ready m)) E (patch env helper (with_ready m)) t
  pub instance_made :
      (clients : WxOneClients) (helper : PatchHelper) (wx : WxOneCluster) (machine : CapiMachine)
      (secret : String) (m : WxOneMachine) (t : Trace)
      → is_empty (instance_id m) ≡ true
      → Q m t
      → Ends Q E (Stages.make_instance env clients helper wx machine secret m) t
  pub attached :
      (clients : WxOneClients) (helper : PatchHelper) (wx : WxOneCluster) (m : WxOneMachine)
      (t : Trace)
      → is_empty (attachement_id m) ≡ true
      → Q m t
      → Ends Q E (Stages.attach env clients helper wx m) t

-- Two parts that make no call.
module _ (env : Env) (P E : Trace → Type 0) (stops : (t : Trace) → P t → E t) where
  pub read_addresses-Walk :
      (l : List (Option String)) (t : Trace) → P t → Ends (λ _. P) E (Stages.read_addresses env l) t
  unfolding Stages.read_addresses
  read_addresses-Walk [] t h = Ends-pure _ h
  read_addresses-Walk (a ∷ r) t h =
      Ends-deref_bind (λ _. stops t h)
        λ s _. Ends-bind (read_addresses-Walk r t h) λ rest t1 h1. Ends-pure _ h1

  pub bootstrap_data-Walk :
      (v : Option String) (t : Trace) → P t → Ends (λ _. P) E (Stages.bootstrap_data env v) t
  unfolding Stages.bootstrap_data
  bootstrap_data-Walk none t h = Ends-throw _ (stops t h)
  bootstrap_data-Walk (some v) t h = Ends-pure _ h

module _ (env : Env) (Q : WxOneMachine → Trace → Type 0) (E : Trace → Type 0) (walk : Walk env Q E)
    (wx : WxOneCluster) (helper : PatchHelper) where
  module _ (clients : WxOneClients) where
    find_flavor-Walk :
        (m : WxOneMachine) (t : Trace)
        → Q m t
        → Ends Q E (Stages.find_flavor env clients helper wx m) t
    unfolding Stages.find_flavor
    find_flavor-Walk m t h =
        Ends-request_bind _ _ _ (walk.stops h)
          (λ answer.
            let h1 = (walk.closed m).asked_closed _ t h in
            Ends-deref_bind (λ _. walk.stops h1)
              λ payload _.
                Ends-deref_bind (λ _. walk.stops h1)
                  λ flavor _.
                    Ends-bind (walk.flavor helper m flavor.id _ h1) λ _ t2 h2. Ends-pure _ h2)
          (λ _. walk.stops ((walk.closed m).asked_closed _ t h))

    scan_images-Walk :
        (l : List (Option ListedImage)) (s : Bool × WxOneMachine) (t : Trace)
        → Q s.1 t
        → Ends (λ s'. Q s'.1) E (Stages.scan_images env clients helper wx l s) t
    unfolding Stages.scan_images Stages.take_image
    scan_images-Walk [] s t h = Ends-pure _ h
    scan_images-Walk (i ∷ r) s t h =
        Ends-deref_bind (λ _. walk.stops h)
          λ image _.
            Ends-deref_bind (λ _. walk.stops h)
              λ name _.
                Ends-bind
                  (Ends-if {b = name == s.1.spec.image.name}
                    (λ _. Ends-bind (walk.image helper s.1 image.id t h) λ _ t1 h1. Ends-pure _ h1)
                    (λ _. Ends-pure s h))
                  λ s' t1 h1. scan_images-Walk r s' t1 h1

    image_or_error-Walk :
        (s : Bool × WxOneMachine) (t : Trace)
        → Q s.1 t
        → Ends Q E (Stages.image_or_error env clients helper wx s) t
    unfolding Stages.image_or_error
    image_or_error-Walk (true, m) t h = Ends-pure _ h
    image_or_error-Walk (false, m) t h = Ends-throw _ (walk.stops h)

    find_image-Walk :
        (m : WxOneMachine) (t : Trace)
        → Q m t
        → Ends Q E (Stages.find_image env clients helper wx m) t
    unfolding Stages.find_image Operations.get_image_list
    find_image-Walk m t h =
        Ends-request_bind _ _ _ (walk.stops h)
          (λ answer.
            let h1 = (walk.closed m).asked_closed _ t h in
            Ends-deref_bind (λ _. walk.stops h1)
              λ payload _.
                Ends-bind (scan_images-Walk payload.msg (false, m) _ h1)
                  λ s t1 h1. image_or_error-Walk s t1 h1)
          (λ _. walk.stops ((walk.closed m).asked_closed _ t h))

    check_running-Walk :
        (m : WxOneMachine) (t : Trace)
        → Q m t
        → Ends (λ s. Q s.0) E (Stages.check_running env clients helper wx m) t
    unfolding Stages.check_running Stages.mark_ready
    check_running-Walk m t h =
        Ends-request_bind _ _ _ (walk.stops h)
          (λ answer.
            let h1 = (walk.closed m).asked_closed _ t h in
            Ends-deref_bind (λ _. walk.stops h1)
              λ payload e1.
                Ends-deref_bind (λ _. walk.stops h1)
                  λ found e2.
                    Ends-if {b = found.status == instance_status_running}
                      (λ e3.
                        Ends-bind
                          (walk.ready helper m _
                            (now (
                              is_running
                                (record {
                                  id = instance_id m;
                                  project_id = wx.status.project.resource_id;
                                })
                                answer payload found e1 e2 e3))
                            h1)
                          λ _ t2 h2. Ends-pure _ h2)
                      (λ _. Ends-pure (m, record { requeue_after = 10 }) h1))
          (λ _. walk.stops ((walk.closed m).asked_closed _ t h))

    provision-Walk :
        (machine : CapiMachine) (secret : String) (m : WxOneMachine) (t : Trace)
        → Q m t
        → Ends (λ s. Q s.0) E (provision env clients helper wx machine secret m) t
    unfolding provision Stages.ensure_flavor Stages.ensure_image Stages.ensure_instance
        Stages.ensure_attachement Stages.ensure_ready
    provision-Walk machine secret m t h =
        Ends-bind (Ends-if (λ _. find_flavor-Walk m t h) (λ _. Ends-pure _ h)) λ m1 t1 h1.
          Ends-bind (Ends-if (λ _. find_image-Walk m1 t1 h1) (λ _. Ends-pure _ h1)) λ m2 t2 h2.
            Ends-bind
              (Ends-if
                {b = is_empty (instance_id m2)
                  && not (is_empty (image_id m2))
                  && not (is_empty (flavor_id m2))}
                (λ e. walk.instance_made clients helper wx machine secret m2 t2 (ground arith) h2)
                (λ _. Ends-pure _ h2))
              λ m3 t3 h3.
                Ends-bind
                  (Ends-if
                    {b = is_control_plane env machine
                      && not (is_empty (instance_id m3))
                      && is_empty (attachement_id m3)}
                    (λ e. walk.attached clients helper wx m3 t3 (ground arith) h3)
                    (λ _. Ends-pure _ h3))
                  λ m4 t4 h4.
                    Ends-if
                      {b = ((is_control_plane env machine && not (is_empty (attachement_id m4)))
                          || not (is_control_plane env machine))
                        && not (is_empty (instance_id m4))}
                      (λ _. check_running-Walk m4 t4 h4)
                      (λ _. Ends-pure (m4, record { requeue_after = 0 }) h4)

    with_bootstrap-Walk :
        (machine : CapiMachine) (secret : Option String) (m : WxOneMachine) (t : Trace)
        → Q m t
        → Ends (λ s. Q s.0) E (with_bootstrap env clients helper wx machine secret m) t
    unfolding with_bootstrap
    with_bootstrap-Walk machine none m t h = Ends-pure _ h
    with_bootstrap-Walk machine (some secret) m t h = provision-Walk machine secret m t h

    when_ready-Walk :
        (ready : Bool) (machine : CapiMachine) (m : WxOneMachine) (t : Trace)
        → Q m t
        → Ends (λ s. Q s.0) E (when_infrastructure_ready env clients helper wx ready machine m) t
    unfolding when_infrastructure_ready
    when_ready-Walk false machine m t h = Ends-pure _ h
    when_ready-Walk true machine m t h = with_bootstrap-Walk machine machine.data_secret_name m t h

  -- The login and all that follows it.
  pub connected-Walk :
      (ready : Bool) (machine : CapiMachine) (m : WxOneMachine) (t : Trace)
      → Q m t
      → Ends
          (λ s. Q s.0)
          E
          (connect env wx >>= λ clients.
            when_infrastructure_ready env clients helper wx ready machine m)
          t
  connected-Walk ready machine m t h =
      Ends-bind
        (Ends-weaken {R = λ _. Q m} (connect-Keeps env (Q m) (walk.closed m) wx t h) (λ _ u p. p)
          (λ u p. walk.stops p))
        λ clients t1 h1. when_ready-Walk clients ready machine m t1 h1
