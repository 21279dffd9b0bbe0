-- ===== src/Cluster/Admitted.antt =====
-- The webhook and the controller: the patches of reconcileNormal and reconcileDelete as updates that
-- the validator of WXOneCluster is asked about.
use capi_wx_one.Base.{⊤, [], ◌∷◌, arith, ◌≡◌}
use capi_wx_one.Api.{WxOneCluster, WxOneClusterSpec, CapiCluster}
use capi_wx_one.Clients.{WxOneClients}
use capi_wx_one.Effects.{Env, Trace, Event, pure, ◌>>=◌, patched_cluster}
use capi_wx_one.Effects.Ends.{
  Ends, IsClosed, Ends-bind, Ends-pure, Ends-if, Ends-call_bind, Ends-deref_bind, Ends-first_bind,
  Ends-request_bind, Ends-consult, Ends-weaken, Ends-trace,
}
use capi_wx_one.Cluster.Stages.{
  PatchHelper, patch, connect, new_helper, add_finalizer, ensure_project, ensure_network,
  ensure_floating_ip, ensure_ssh_key, ensure_ready, remove_network, remove_floating_ip,
  remove_ssh_key, release, fetch_project, make_network, make_floating_ip, make_ssh_key, mark_ready,
  drop_network, drop_floating_ip, drop_ssh_key, drop_finalizer,
}
use capi_wx_one.Cluster.Keeps.{connect-Keeps}
use capi_wx_one.Cluster.Reconciler.{reconcile_normal, reconcile_delete}
use capi_wx_one.Cluster.Accounting.{stored}
use capi_wx_one.Webhook.Validators.{accept, update_cluster}
use capi_wx_one.Webhook.Immutable.{SameCluster, update_cluster-SameCluster}

-- The handler admits this event as an update of the object that the API server holds.
abbrev pub IsAdmitted : WxOneCluster → Event → Type 0
IsAdmitted held (patched_cluster before c r) = update_cluster held c ≡ accept
IsAdmitted held e = ⊤

-- It admits all of a trace.
abbrev pub AllAdmitted : WxOneCluster → Trace → Type 0
AllAdmitted start [] = ⊤
AllAdmitted start (e ∷ t) = IsAdmitted (stored start t) e × AllAdmitted start t

-- Neither the object in memory nor the stored one has another spec, endpoint aside.
record Unchanged (start c : WxOneCluster) (t : Trace) : Type 0 where
  memory : SameCluster c.spec start.spec
  server : SameCluster (stored start t).spec start.spec
  admitted : AllAdmitted start t

record Fine (start : WxOneCluster) (t : Trace) : Type 0 where
  server : SameCluster (stored start t).spec start.spec
  admitted : AllAdmitted start t

fine : (start c : WxOneCluster) (t : Trace) → Unchanged start c t → Fine start t
fine start c t h = record { server = h.server; admitted = h.admitted }

SameCluster-trans : {a b c : WxOneClusterSpec} → SameCluster a c → SameCluster b c → SameCluster a b
SameCluster-trans h k = record {
  same_project = cc;
  same_zone = cc;
  same_network = cc;
  same_ssh_key = cc;
  same_credentials = cc;
}

Unchanged-IsClosed : (start c : WxOneCluster) → IsClosed (Unchanged start c)
Unchanged-IsClosed start c = record {
  read_closed =
      λ q t h. record { memory = h.memory; server = h.server; admitted = (tt, h.admitted) };
  posted_closed =
      λ url body t h. record { memory = h.memory; server = h.server; admitted = (tt, h.admitted) };
  asked_closed =
      λ q t h. record { memory = h.memory; server = h.server; admitted = (tt, h.admitted) };
}

module _ (env : Env) (start : WxOneCluster) where
  -- A patch of an object whose spec is as it was.
  patch-Unchanged :
      (helper : PatchHelper) (c : WxOneCluster) (t : Trace)
      → SameCluster c.spec start.spec
      → Fine start t
      → Ends (Unchanged start) (Fine start) (patch env helper c >>= λ _. pure c) t
  unfolding patch
  patch-Unchanged helper c t same h =
      let admitted : update_cluster (stored start t) c ≡ accept =
        (update_cluster-SameCluster _ _).1 (SameCluster-trans same h.server) in
      Ends-call_bind _ _
        (λ _ _.
          Ends-pure c (record { memory = same; server = same; admitted = (admitted, h.admitted) }))
        (λ _ _. record { server = h.server; admitted = (admitted, h.admitted) })

  new_helper-Unchanged :
      (c : WxOneCluster) (t : Trace)
      → Unchanged start c t
      → Ends (λ _. Unchanged start c) (Fine start) (new_helper env c) t
  unfolding new_helper
  new_helper-Unchanged c t h =
      Ends-bind (Ends-consult {Q = λ _. Unchanged start c} _ (fine start c t h) (λ _ _. h))
        λ _ t1 h1. Ends-pure _ h1

  connect-Unchanged :
      (c : WxOneCluster) (t : Trace)
      → Unchanged start c t
      → Ends (λ _. Unchanged start c) (Fine start) (connect env c) t
  connect-Unchanged c t h =
      Ends-weaken (connect-Keeps env (Unchanged start c) (Unchanged-IsClosed start c) c t h)
        (λ _ u p. p) (fine start c)

  add_finalizer-Unchanged :
      (helper : PatchHelper) (c : WxOneCluster) (t : Trace)
      → Unchanged start c t
      → Ends (Unchanged start) (Fine start) (add_finalizer env helper c) t
  unfolding add_finalizer
  add_finalizer-Unchanged helper c t h = patch-Unchanged helper _ t h.memory (fine start c t h)

  module _ (clients : WxOneClients) (helper : PatchHelper) (c : WxOneCluster) (t : Trace)
      (h : Unchanged start c t) where
    -- What an event that is no patch leaves.
    unpatched : Fine start t
    unpatched = fine start c t h

    fetch_project-Unchanged :
        Ends (Unchanged start) (Fine start) (fetch_project env clients helper c) t
    unfolding fetch_project
    fetch_project-Unchanged =
        Ends-request_bind _ _ _ unpatched
          (λ answer.
            Ends-deref_bind (λ _. ground arith)
              λ payload _.
                Ends-deref_bind (λ _. ground arith) λ project _. Ends-pure _ (ground arith))
          (λ _. ground arith)

    make_network-Unchanged :
        Ends (Unchanged start) (Fine start) (make_network env clients helper c) t
    unfolding make_network
    make_network-Unchanged =
        Ends-request_bind _ _ _ unpatched
          (λ answer.
            Ends-deref_bind (λ _. ground arith)
              λ payload _.
                Ends-deref_bind (λ _. ground arith)
                  λ network _.
                    Ends-first_bind (λ _. ground arith)
                      λ entry rest _.
                        Ends-deref_bind (λ _. ground arith)
                          λ subnet _. patch-Unchanged helper _ _ h.memory (ground arith))
          (λ _. ground arith)

    make_floating_ip-Unchanged :
        Ends (Unchanged start) (Fine start) (make_floating_ip env clients helper c) t
    unfolding make_floating_ip
    make_floating_ip-Unchanged =
        Ends-request_bind _ _ _ unpatched
          (λ answer.
            Ends-deref_bind (λ _. ground arith)
              λ payload _.
                Ends-deref_bind (λ _. ground arith)
                  λ address _. patch-Unchanged helper _ _ h.memory (ground arith))
          (λ _. ground arith)

    make_ssh_key-Unchanged :
        Ends (Unchanged start) (Fine start) (make_ssh_key env clients helper c) t
    unfolding make_ssh_key
    make_ssh_key-Unchanged =
        Ends-request_bind _ _ _ unpatched
          (λ answer.
            Ends-deref_bind (λ _. ground arith)
              λ payload _.
                Ends-deref_bind (λ _. ground arith)
                  λ key _. patch-Unchanged helper _ _ h.memory (ground arith))
          (λ _. ground arith)

    drop_network-Unchanged :
        Ends (Unchanged start) (Fine start) (drop_network env clients helper c) t
    unfolding drop_network
    drop_network-Unchanged =
        Ends-request_bind _ _ _ unpatched
          (λ answer. patch-Unchanged helper _ _ h.memory (ground arith)) (λ _. ground arith)

    drop_floating_ip-Unchanged :
        Ends (Unchanged start) (Fine start) (drop_floating_ip env clients helper c) t
    unfolding drop_floating_ip
    drop_floating_ip-Unchanged =
        Ends-request_bind _ _ _ unpatched
          (λ answer. patch-Unchanged helper _ _ h.memory (ground arith)) (λ _. ground arith)

    drop_ssh_key-Unchanged :
        Ends (Unchanged start) (Fine start) (drop_ssh_key env clients helper c) t
    unfolding drop_ssh_key
    drop_ssh_key-Unchanged =
        Ends-request_bind _ _ _ unpatched
          (λ answer. patch-Unchanged helper _ _ h.memory (ground arith)) (λ _. ground arith)

    drop_finalizer-Unchanged :
        Ends (Unchanged start) (Fine start) (drop_finalizer env clients helper c) t
    unfolding drop_finalizer
    drop_finalizer-Unchanged = patch-Unchanged helper _ t h.memory unpatched

    mark_ready-Unchanged :
        (cluster : CapiCluster)
        → Ends (Unchanged start) (Fine start) (mark_ready env clients helper cluster c) t
    unfolding mark_ready
    mark_ready-Unchanged cluster =
        patch-Unchanged helper _ t
          (record {
            same_project = h.memory.same_project;
            same_zone = h.memory.same_zone;
            same_network = h.memory.same_network;
            same_ssh_key = h.memory.same_ssh_key;
            same_credentials = h.memory.same_credentials;
          })
          unpatched

  reconcile_normal-Unchanged :
      (c : WxOneCluster) (cluster : CapiCluster) (t : Trace)
      → Unchanged start c t
      → Ends (Unchanged start) (Fine start) (reconcile_normal env c cluster) t
  unfolding reconcile_normal ensure_project ensure_network ensure_floating_ip ensure_ssh_key
      ensure_ready
  reconcile_normal-Unchanged c cluster t h = Ends-bind (new_helper-Unchanged c t h) λ helper t1 h1.
      Ends-bind (add_finalizer-Unchanged helper c t1 h1) λ c1 t2 h2.
        Ends-bind (connect-Unchanged c1 t2 h2) λ clients t3 h3.
          Ends-bind
            (Ends-if (λ _. fetch_project-Unchanged clients helper c1 t3 h3) (λ _. Ends-pure _ h3))
            λ c2 t4 h4.
              Ends-bind
                (Ends-if (λ _. make_network-Unchanged clients helper c2 t4 h4)
                  (λ _. Ends-pure _ h4))
                λ c3 t5 h5.
                  Ends-bind
                    (Ends-if (λ _. make_floating_ip-Unchanged clients helper c3 t5 h5)
                      (λ _. Ends-pure _ h5))
                    λ c4 t6 h6.
                      Ends-bind
                        (Ends-if (λ _. make_ssh_key-Unchanged clients helper c4 t6 h6)
                          (λ _. Ends-pure _ h6))
                        λ c5 t7 h7.
                          Ends-if (λ _. mark_ready-Unchanged clients helper c5 t7 h7 cluster)
                            (λ _. Ends-pure _ h7)

  reconcile_delete-Unchanged :
      (c : WxOneCluster) (t : Trace)
      → Unchanged start c t
      → Ends (Unchanged start) (Fine start) (reconcile_delete env c) t
  unfolding reconcile_delete remove_network remove_floating_ip remove_ssh_key release
  reconcile_delete-Unchanged c t h = Ends-bind (new_helper-Unchanged c t h) λ helper t1 h1.
      Ends-bind (connect-Unchanged c t1 h1) λ clients t2 h2.
        Ends-bind
          (Ends-if (λ _. Ends-pure _ h2) (λ _. drop_network-Unchanged clients helper c t2 h2))
          λ c1 t3 h3.
            Ends-bind
              (Ends-if (λ _. Ends-pure _ h3)
                (λ _. drop_floating_ip-Unchanged clients helper c1 t3 h3))
              λ c2 t4 h4.
                Ends-bind
                  (Ends-if (λ _. Ends-pure _ h4)
                    (λ _. drop_ssh_key-Unchanged clients helper c2 t4 h4))
                  λ c3 t5 h5.
                    Ends-if (λ _. drop_finalizer-Unchanged clients helper c3 t5 h5)
                      (λ _. Ends-pure _ h5)

  -- Let all patches of a trace be such that the validator of updates admits them, each against the
  -- object that the API server held at the time, and let a reconcile start from the stored object,
  -- whose spec, endpoint aside, is the one at the start of the trace. Then, however reconcileNormal
  -- or reconcileDelete ends, the validator admits every patch of the longer trace too.
  pub reconcile-AllAdmitted :
      (cluster : CapiCluster) (t : Trace)
      → SameCluster (stored start t).spec start.spec
      → AllAdmitted start t
      → AllAdmitted start (reconcile_normal env (stored start t) cluster t).1
        × AllAdmitted start (reconcile_delete env (stored start t) t).1
  reconcile-AllAdmitted cluster t same admitted =
      let h : Unchanged start (stored start t) t = record {
        memory = same;
        server = same;
        admitted = admitted;
      } in
      (
        Ends-trace (λ _ u p. p.admitted) (λ u p. p.admitted)
            (reconcile_normal-Unchanged (stored start t) cluster t h),
        Ends-trace (λ _ u p. p.admitted) (λ u p. p.admitted)
            (reconcile_delete-Unchanged (stored start t) t h),
      )
