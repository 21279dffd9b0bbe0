-- ===== src/Machine/Progress/Normal.antt =====
-- The machine's reconcileNormal against servers that answer.
use capi_wx_one.Base.{
  String, Bool, true, false, Option, none, some, List, [], ◌∷◌, ◌≡◌, refl, sym, ap, ◌∙◌, arith,
  is_empty, ◌&&◌, ◌||◌, not, lookup, ◌==◌, eq_iff,
}
use capi_wx_one.Api.{WxOneCluster, WxOneMachine, CapiCluster, CapiMachine}
use capi_wx_one.Graphql.Responses.{CreatedInstance, FoundInstance, instance_status_running}
use capi_wx_one.Graphql.Operations
use capi_wx_one.Clients.{WxOneClients}
use capi_wx_one.Effects.{Env, Trace, GraphqlClient}
use capi_wx_one.Effects.Ends.{Ends, Ends-bind, Ends-pure, Ends-if, Ends-mono, Ends-some_bind}
use capi_wx_one.Effects.Known.{
  Ends-call_done, Ends-request_done, Ends-consult_done, Ends-deref_known, Ends-first_cons,
  Ends-embed_ok, Ends-call_last,
}
use capi_wx_one.Cluster.Progress.{connect-returns}
use capi_wx_one.Machine.Stages
use capi_wx_one.Machine.Stages.{
  PatchHelper, Result, has_annotation, flavor_id, image_id, instance_id, attachement_id,
  is_control_plane, user_data,
}
use capi_wx_one.Machine.Reconciler
use capi_wx_one.Machine.Reconciler.{reconcile_normal}
use capi_wx_one.Machine.Progress.{NoNil, Provides}
use capi_wx_one.Machine.Progress.Image.{find_image-returns}

no_flag : false ≡ true → ⊥
no_flag h = cc

module _ (env : Env) (wanted : String) (provides : Provides env wanted) where
  new_helper-returns :
      (m : WxOneMachine) (t : Trace) → Ends (λ _ _. Unit {0}) (λ _. ⊥) (Stages.new_helper env m) t
  unfolding Stages.new_helper
  new_helper-returns m t = Ends-consult_done _ tt _ (provides.helps t m) (Ends-pure _ tt)

  add_finalizer-returns :
      (helper : PatchHelper) (m : WxOneMachine) (t : Trace)
      → Ends
          (λ m' _. m'.spec.image.name ≡ m.spec.image.name)
          (λ _. ⊥)
          (Stages.add_finalizer env helper m)
          t
  unfolding Stages.add_finalizer
  add_finalizer-returns helper m t =
      Ends-call_done _ tt _ _ (provides.patches _ _ _) (Ends-pure _ refl)

  read_addresses-returns :
      (l : List (Option String)) (t : Trace)
      → NoNil l
      → Ends (λ _ _. Unit {0}) (λ _. ⊥) (Stages.read_addresses env l) t
  unfolding Stages.read_addresses
  read_addresses-returns [] t h = Ends-pure _ tt
  read_addresses-returns (none ∷ r) t h = absurd h
  read_addresses-returns (some a ∷ r) t h =
      Ends-some_bind a _ (Ends-bind (read_addresses-returns r t h) λ rest t1 _. Ends-pure _ tt)

  module _ (clients : WxOneClients) (g : GraphqlClient) (there : clients.graphql_client ≡ some g)
      (helper : PatchHelper) (wx : WxOneCluster) where
    find_flavor-returns :
        (m : WxOneMachine) (t : Trace)
        → Ends
            (λ m' _. (is_empty (flavor_id m') ≡ false) × (m'.spec.image.name ≡ m.spec.image.name))
            (λ _. ⊥)
            (Stages.find_flavor env clients helper wx m)
            t
    unfolding Stages.find_flavor
    find_flavor-returns m t =
        let (p, f, answered, brought, set) = provides.flavor t g _ in
        Ends-request_done _ (some p) g _ _ there answered (
          Ends-deref_known _ p refl (
            Ends-deref_known _ f brought
              (Ends-call_done _ tt _ _ (provides.patches _ _ _) (Ends-pure _ (set, refl)))))

    bootstrap_data-returns :
        (o : Option String) (v : String) (t : Trace)
        → o ≡ some v
        → Ends (λ v' _. v' ≡ v) (λ _. ⊥) (Stages.bootstrap_data env o) t
    unfolding Stages.bootstrap_data
    bootstrap_data-returns none v t e = absurd cc
    bootstrap_data-returns (some w) v t e = Ends-pure w cc

    record_instance-returns :
        (m : WxOneMachine) (made : CreatedInstance) (t : Trace)
        → NoNil made.addresses
        → is_empty made.id ≡ false
        → Ends
            (λ m' _. is_empty (instance_id m') ≡ false)
            (λ _. ⊥)
            (Stages.record_instance env clients helper wx m made)
            t
    unfolding Stages.record_instance
    record_instance-returns m made t no_nil set =
        Ends-bind (read_addresses-returns made.addresses t no_nil)
          λ addresses t1 _. Ends-call_done _ tt _ _ (provides.patches _ _ _) (Ends-pure _ set)

    make_instance-returns :
        (machine : CapiMachine) (secret : String) (m : WxOneMachine) (t : Trace)
        → Ends
            (λ m' _. is_empty (instance_id m') ≡ false)
            (λ _. ⊥)
            (Stages.make_instance env clients helper wx machine secret m)
            t
    unfolding Stages.make_instance Operations.create_instance
    make_instance-returns machine secret m t =
        let (s, found, usable) = provides.bootstrap t _ in
        let (v, listed, converts) = usable in
        let (raw, converted) = converts (is_control_plane env machine) wx.status.floating_ip.ip in
        Ends-call_done _ s _ _ found (
          Ends-bind (bootstrap_data-returns (lookup "value" s.entries) v _ listed) λ v' t1 same.
            Ends-embed_ok _ raw
              (ap (user_data env (is_control_plane env machine) wx.status.floating_ip.ip) same
                ∙ converted)
              (let (p, made, answered, brought, good) = provides.instance_made t1 g _ in
                Ends-request_done _ (some p) g _ _ there answered (
                  Ends-deref_known _ p refl (
                    Ends-deref_known _ made brought
                      (record_instance-returns m made _ good.1 good.0)))))

    attach-returns :
        (m : WxOneMachine) (t : Trace)
        → is_empty (instance_id m) ≡ false
        → Ends
            (λ m' _. (is_empty (instance_id m') ≡ false) × (is_empty (attachement_id m') ≡ false))
            (λ _. ⊥)
            (Stages.attach env clients helper wx m)
            t
    unfolding Stages.attach
    attach-returns m t has =
        let (p, member, rest, answered, listed, set) = provides.member t g _ in
        Ends-request_done _ (some p) g _ _ there answered (
          Ends-deref_known _ p refl (
            Ends-first_cons _ (some member) rest listed (
              Ends-deref_known _ member refl
                (Ends-call_done _ tt _ _ (provides.patches _ _ _) (Ends-pure _ (has, set))))))

    abbrev IsReady : WxOneMachine × Result → Trace → Type 0
    IsReady s t = (s.0.status.ready ≡ true) × (s.1.requeue_after ≡ 0)

    check_running-returns :
        (m : WxOneMachine) (t : Trace)
        → Ends IsReady (λ _. ⊥) (Stages.check_running env clients helper wx m) t
    unfolding Stages.check_running Stages.mark_ready
    check_running-returns m t =
        let (p, found, answered, brought, is_running) = provides.running t g _ in
        Ends-request_done _ (some p) g _ _ there answered (
          Ends-deref_known _ p refl (
            Ends-deref_known _ found brought (
              Ends-if {b = found.status == instance_status_running}
                (λ _. Ends-call_done _ tt _ _ (provides.patches _ _ _) (Ends-pure _ (refl, refl)))
                (λ differs. absurd (clash found is_running differs)))))
      where
        clash :
            (f : FoundInstance)
            → f.status ≡ instance_status_running
            → (f.status == instance_status_running) ≡ false
            → ⊥
        clash f e differs = no_flag (sym differs ∙ (eq_iff f.status instance_status_running).1 e)

    -- The instance is there, and a control plane machine is attached.
    record Attached (machine : CapiMachine) (m : WxOneMachine) : Type 0 where
      has_instance : is_empty (instance_id m) ≡ false
      attached : (is_control_plane env machine && is_empty (attachement_id m)) ≡ false

    attached_now :
        (machine : CapiMachine) (m : WxOneMachine)
        → is_empty (attachement_id m) ≡ false
        → (is_control_plane env machine && is_empty (attachement_id m)) ≡ false
    attached_now machine m set = ground arith

    not_unready :
        (machine : CapiMachine) (m : WxOneMachine)
        → Attached machine m
        → (((is_control_plane env machine && not (is_empty (attachement_id m)))
              || not (is_control_plane env machine))
            && not (is_empty (instance_id m)))
          ≡ false
        → ⊥
    not_unready machine m h e = ground (arith, h.has_instance, h.attached)

    provision-returns :
        (machine : CapiMachine) (secret : String) (m : WxOneMachine) (t : Trace)
        → m.spec.image.name ≡ wanted
        → Ends IsReady (λ _. ⊥) (Reconciler.provision env clients helper wx machine secret m) t
    unfolding Reconciler.provision Stages.ensure_flavor Stages.ensure_image Stages.ensure_instance
        Stages.ensure_attachement Stages.ensure_ready
    provision-returns machine secret m t same =
        Ends-bind
          (Ends-if {b = is_empty (flavor_id m)} (λ _. find_flavor-returns m t)
            (λ e. Ends-pure m (e, refl)))
          λ m1 t1 h1.
            Ends-bind
              (Ends-if {b = is_empty (image_id m1)}
                (λ _.
                  find_image-returns env wanted provides clients g there helper wx m1 t1
                    (h1.1 ∙ same) h1.0)
                (λ e. Ends-pure m1 (h1.0, e)))
              λ m2 t2 h2.
                Ends-bind
                  (Ends-if
                    {b = is_empty (instance_id m2)
                      && not (is_empty (image_id m2))
                      && not (is_empty (flavor_id m2))}
                    (λ _. make_instance-returns machine secret m2 t2)
                    (λ e. Ends-pure m2 (ground (arith, h2))))
                  λ m3 t3 h3.
                    Ends-bind
                      (Ends-if {Q = λ m' _. Attached machine m'}
                        {b = is_control_plane env machine
                          && not (is_empty (instance_id m3))
                          && is_empty (attachement_id m3)}
                        (λ _. Ends-mono (attach-returns m3 t3 h3) λ m' u (has, set). record {
                          has_instance = has;
                          attached = attached_now machine m' set;
                        })
                        (λ e.
                          Ends-pure m3
                            (record { has_instance = h3; attached = ground (arith, h3) })))
                      λ m4 t4 h4.
                        Ends-if
                          {b = ((is_control_plane env machine && not (is_empty (attachement_id m4)))
                              || not (is_control_plane env machine))
                            && not (is_empty (instance_id m4))}
                          (λ _. check_running-returns m4 t4)
                          (λ e. absurd (not_unready machine m4 h4 e))

    with_bootstrap-returns :
        (machine : CapiMachine) (o : Option String) (secret : String) (m : WxOneMachine) (t : Trace)
        → o ≡ some secret
        → m.spec.image.name ≡ wanted
        → Ends IsReady (λ _. ⊥) (Reconciler.with_bootstrap env clients helper wx machine o m) t
    unfolding Reconciler.with_bootstrap
    with_bootstrap-returns machine none secret m t e same = absurd cc
    with_bootstrap-returns machine (some s) secret m t e same = provision-returns machine s m t same

    when_infrastructure-returns :
        (b : Bool) (machine : CapiMachine) (secret : String) (m : WxOneMachine) (t : Trace)
        → b ≡ true
        → machine.data_secret_name ≡ some secret
        → m.spec.image.name ≡ wanted
        → Ends IsReady
            (λ _. ⊥)
            (Reconciler.when_infrastructure_ready env clients helper wx b machine m)
            t
    unfolding Reconciler.when_infrastructure_ready
    when_infrastructure-returns true machine secret m t e named same =
        with_bootstrap-returns machine machine.data_secret_name secret m t named same
    when_infrastructure-returns false machine secret m t e named same = absurd (no_flag e)

  ensure_hook-returns :
      (machine : CapiMachine) (t : Trace)
      → Ends
          (λ m' _. m'.data_secret_name ≡ machine.data_secret_name)
          (λ _. ⊥)
          (Stages.ensure_hook env machine)
          t
  unfolding Stages.ensure_hook Stages.update
  ensure_hook-returns machine t =
      Ends-if {b = has_annotation machine.annotations} (λ _. Ends-pure machine refl)
        (λ _.
          let (got, answered, same) = provides.updates t _ in Ends-call_last got _ _ answered same)

-- Let the cluster's infrastructure be ready and the machine's bootstrap secret be named. Where every
-- call to the API server succeeds, the login is accepted, the bootstrap data converts, and WX-ONE
-- answers with ids, with a list of named images that has the wanted one, and with a running
-- instance, one run of the machine's reconcileNormal returns without an error or a panic,
-- whatever the machine records at its start; the machine is ready and no requeue is asked for.
pub machine_normal-returns :
    (env : Env) (cluster : CapiCluster) (wx : WxOneCluster) (machine : CapiMachine)
    (m : WxOneMachine) (t : Trace) (secret : String)
    → cluster.infrastructure_ready ≡ true
    → machine.data_secret_name ≡ some secret
    → Provides env m.spec.image.name
    → Ends
        (λ s _. (s.0.status.ready ≡ true) × (s.1.requeue_after ≡ 0))
        (λ _. ⊥)
        (reconcile_normal env cluster wx machine m)
        t
unfolding reconcile_normal
machine_normal-returns env cluster wx machine m t secret ready named provides =
    let wanted = m.spec.image.name in
    Ends-bind (ensure_hook-returns env wanted provides machine t) λ machine' t1 same.
      Ends-bind (new_helper-returns env wanted provides m t1) λ helper t2 _.
        Ends-bind (add_finalizer-returns env wanted provides helper m t2) λ m1 t3 kept.
          Ends-bind (connect-returns env provides.serves wx t3) λ clients t4 (g, there).
            when_infrastructure-returns env wanted provides clients g there helper wx
              cluster.infrastructure_ready machine' secret m1 t4 ready (same ∙ named) kept
