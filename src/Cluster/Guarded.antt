-- ===== src/Cluster/Guarded.antt =====
-- reconcileNormal: the finalizer that the API server holds, and the requests to make something.
use capi_wx_one.Base.{⊤, String, Bool, true, false, ◌||◌, List, [], ◌∷◌, ◌==◌, ◌≡◌}
use capi_wx_one.Api.{WxOneCluster, CapiCluster, cluster_finalizer}
use capi_wx_one.Clients.{WxOneClients}
use capi_wx_one.Effects.{
  Env, Trace, Event, pure, ◌>>=◌, created_network, created_floating_ip, created_key,
}
use capi_wx_one.Effects.Ends.{
  Ends, IsClosed, Ends-bind, Ends-pure, Ends-if, Ends-call_bind, Ends-deref_bind, Ends-first_bind,
  Ends-request_bind, Ends-consult, Ends-weaken, Ends-trace,
}
use capi_wx_one.Cluster.Stages.{
  PatchHelper, patch, connect, new_helper, add_finalizer, ensure_project, ensure_network,
  ensure_floating_ip, ensure_ssh_key, ensure_ready, fetch_project, make_network, make_floating_ip,
  make_ssh_key, mark_ready,
}
use capi_wx_one.Cluster.Keeps.{connect-Keeps}
use capi_wx_one.Cluster.Reconciler.{reconcile_normal}
use capi_wx_one.Cluster.Accounting.{stored}

abbrev pub contains : String → List String → Bool
contains f [] = false
contains f (g ∷ r) = g == f || contains f r

-- The API server's object has the finalizer when a request to make something is sent.
abbrev pub IsGuarded : WxOneCluster → Event → Type 0
IsGuarded held (created_network input r) = contains cluster_finalizer held.meta.finalizers ≡ true
IsGuarded held (created_floating_ip input r) =
    contains cluster_finalizer held.meta.finalizers ≡ true
IsGuarded held (created_key input r) = contains cluster_finalizer held.meta.finalizers ≡ true
IsGuarded held e = ⊤

abbrev pub AllGuarded : WxOneCluster → Trace → Type 0
AllGuarded start [] = ⊤
AllGuarded start (e ∷ t) = IsGuarded (stored start t) e × AllGuarded start t

-- controllerutil.AddFinalizer: the finalizer is in the list that it leaves.
abbrev pub AddsFinalizer : Env → Type 0
AddsFinalizer env =
    (fs : List String) (f : String) → contains f (env.kube.add_finalizer fs f) ≡ true

-- The object in memory and the stored one have the finalizer.
record Covered (start c : WxOneCluster) (t : Trace) : Type 0 where
  memory : contains cluster_finalizer c.meta.finalizers ≡ true
  server : contains cluster_finalizer (stored start t).meta.finalizers ≡ true
  guarded : AllGuarded start t

Covered-IsClosed : (start c : WxOneCluster) → IsClosed (Covered start c)
Covered-IsClosed start c = record {
  read_closed = λ q t h. record { memory = h.memory; server = h.server; guarded = (tt, h.guarded) };
  posted_closed =
      λ url body t h. record { memory = h.memory; server = h.server; guarded = (tt, h.guarded) };
  asked_closed =
      λ q t h. record { memory = h.memory; server = h.server; guarded = (tt, h.guarded) };
}

module _ (env : Env) (start : WxOneCluster) where
  patch-Covered :
      (helper : PatchHelper) (c : WxOneCluster) (t : Trace)
      → contains cluster_finalizer c.meta.finalizers ≡ true
      → AllGuarded start t
      → Ends (Covered start) (AllGuarded start) (patch env helper c >>= λ _. pure c) t
  unfolding patch
  patch-Covered helper c t has h =
      Ends-call_bind _ _
        (λ _ _. Ends-pure c (record { memory = has; server = has; guarded = (tt, h) }))
        (λ _ _. (tt, h))

  new_helper-guarded :
      (c : WxOneCluster) (t : Trace)
      → AllGuarded start t
      → Ends (λ _. AllGuarded start) (AllGuarded start) (new_helper env c) t
  unfolding new_helper
  new_helper-guarded c t h =
      Ends-bind (Ends-consult {Q = λ _. AllGuarded start} _ h (λ _ _. h)) λ _ t1 h1. Ends-pure _ h1

  add_finalizer-Covered :
      (helper : PatchHelper) (c : WxOneCluster) (t : Trace)
      → AddsFinalizer env
      → AllGuarded start t
      → Ends (Covered start) (AllGuarded start) (add_finalizer env helper c) t
  unfolding add_finalizer
  add_finalizer-Covered helper c t adds h =
      patch-Covered helper _ t (adds c.meta.finalizers cluster_finalizer) h

  connect-Covered :
      (c : WxOneCluster) (t : Trace)
      → Covered start c t
      → Ends (λ _. Covered start c) (AllGuarded start) (connect env c) t
  connect-Covered c t h =
      Ends-weaken (connect-Keeps env (Covered start c) (Covered-IsClosed start c) c t h)
        (λ _ u p. p) (λ u p. p.guarded)

  module _ (clients : WxOneClients) (helper : PatchHelper) (c : WxOneCluster) (t : Trace)
      (h : Covered start c t) where
    fetch_project-Covered :
        Ends (Covered start) (AllGuarded start) (fetch_project env clients helper c) t
    unfolding fetch_project
    fetch_project-Covered =
        Ends-request_bind _ _ _ h.guarded
          (λ answer.
            Ends-deref_bind (λ _. (tt, h.guarded))
              λ payload _.
                Ends-deref_bind (λ _. (tt, h.guarded))
                  λ project _.
                    Ends-pure _
                      (record { memory = h.memory; server = h.server; guarded = (tt, h.guarded) }))
          (λ _. (tt, h.guarded))

    make_network-Covered :
        Ends (Covered start) (AllGuarded start) (make_network env clients helper c) t
    unfolding make_network
    make_network-Covered =
        Ends-request_bind _ _ _ h.guarded
          (λ answer.
            Ends-deref_bind (λ _. (h.server, h.guarded))
              λ payload _.
                Ends-deref_bind (λ _. (h.server, h.guarded))
                  λ network _.
                    Ends-first_bind (λ _. (h.server, h.guarded))
                      λ entry rest _.
                        Ends-deref_bind (λ _. (h.server, h.guarded))
                          λ subnet _. patch-Covered helper _ _ h.memory (h.server, h.guarded))
          (λ _. (h.server, h.guarded))

    make_floating_ip-Covered :
        Ends (Covered start) (AllGuarded start) (make_floating_ip env clients helper c) t
    unfolding make_floating_ip
    make_floating_ip-Covered =
        Ends-request_bind _ _ _ h.guarded
          (λ answer.
            Ends-deref_bind (λ _. (h.server, h.guarded))
              λ payload _.
                Ends-deref_bind (λ _. (h.server, h.guarded))
                  λ address _. patch-Covered helper _ _ h.memory (h.server, h.guarded))
          (λ _. (h.server, h.guarded))

    make_ssh_key-Covered :
        Ends (Covered start) (AllGuarded start) (make_ssh_key env clients helper c) t
    unfolding make_ssh_key
    make_ssh_key-Covered =
        Ends-request_bind _ _ _ h.guarded
          (λ answer.
            Ends-deref_bind (λ _. (h.server, h.guarded))
              λ payload _.
                Ends-deref_bind (λ _. (h.server, h.guarded))
                  λ key _. patch-Covered helper _ _ h.memory (h.server, h.guarded))
          (λ _. (h.server, h.guarded))

    mark_ready-Covered :
        (cluster : CapiCluster)
        → Ends (Covered start) (AllGuarded start) (mark_ready env clients helper cluster c) t
    unfolding mark_ready
    mark_ready-Covered cluster = patch-Covered helper _ t h.memory h.guarded

-- Let AddFinalizer put the finalizer into the list, and let a trace be one in which the API server
-- held the cluster's finalizer at each request to make a network, a floating IP or a key. Then,
-- from any object and however reconcileNormal ends, the same is true of the longer trace.
pub reconcile_normal-AllGuarded :
    (env : Env) (start c : WxOneCluster) (cluster : CapiCluster) (t : Trace)
    → AddsFinalizer env
    → AllGuarded start t
    → AllGuarded start (reconcile_normal env c cluster t).1
unfolding reconcile_normal ensure_project ensure_network ensure_floating_ip ensure_ssh_key
    ensure_ready
reconcile_normal-AllGuarded env start c cluster t adds h =
    Ends-trace {Q = Covered start} (λ _ u p. p.guarded) (λ u p. p)
      (Ends-bind (new_helper-guarded env start c t h) λ helper t1 h1.
        Ends-bind (add_finalizer-Covered env start helper c t1 adds h1) λ c1 t2 h2.
          Ends-bind (connect-Covered env start c1 t2 h2) λ clients t3 h3.
            Ends-bind
              (Ends-if (λ _. fetch_project-Covered env start clients helper c1 t3 h3)
                (λ _. Ends-pure c1 h3))
              λ c2 t4 h4.
                Ends-bind
                  (Ends-if (λ _. make_network-Covered env start clients helper c2 t4 h4)
                    (λ _. Ends-pure c2 h4))
                  λ c3 t5 h5.
                    Ends-bind
                      (Ends-if (λ _. make_floating_ip-Covered env start clients helper c3 t5 h5)
                        (λ _. Ends-pure c3 h5))
                      λ c4 t6 h6.
                        Ends-bind
                          (Ends-if (λ _. make_ssh_key-Covered env start clients helper c4 t6 h6)
                            (λ _. Ends-pure c4 h6))
                          λ c5 t7 h7.
                            Ends-if
                              (λ _. mark_ready-Covered env start clients helper c5 t7 h7 cluster)
                              (λ _. Ends-pure c5 h7))
