-- ===== src/Cluster/Accounting/Normal.antt =====
-- The books, part by part of reconcileNormal.
use capi_wx_one.Base.{◌≡◌, true, is_empty}
use capi_wx_one.Api.{WxOneCluster, CapiCluster}
use capi_wx_one.Clients.{WxOneClients}
use capi_wx_one.Effects.{Env, Trace}
use capi_wx_one.Effects.Ends.{
  Ends, IsClosed, Ends-bind, Ends-pure, Ends-if, Ends-deref_bind, Ends-first_bind, Ends-call_bind,
  Ends-request_bind, Ends-consult, Ends-weaken,
}
use capi_wx_one.Cluster.Stages.{
  PatchHelper, subnet_id, floating_ip_id, ssh_key_id, ensure_network, ensure_floating_ip,
  ensure_ssh_key, ensure_project, ensure_ready, make_network, make_floating_ip, make_ssh_key,
  fetch_project, mark_ready, new_helper, add_finalizer,
}
use capi_wx_one.Cluster.Keeps.{connect-Keeps}
use capi_wx_one.Cluster.Reconciler.{reconcile_normal}
use capi_wx_one.Cluster.Accounting.{books, Numbers, IsAccounted, Agrees}

module _ (env : Env) (allowance : Numbers) (start : WxOneCluster) where
  module _ (clients : WxOneClients) (helper : PatchHelper) where
    fetch_project-Agrees :
        (c : WxOneCluster) (t : Trace)
        → Agrees allowance start c t
        → Ends
            (Agrees allowance start)
            (IsAccounted allowance start)
            (fetch_project env clients helper c)
            t
    unfolding fetch_project
    fetch_project-Agrees c t h =
        Ends-request_bind _ _ _ h.balanced
          (λ answer.
            Ends-deref_bind (λ e. ground books)
              λ payload e1.
                Ends-deref_bind (λ e. ground books) λ project e2. Ends-pure _ (ground books))
          (λ x. ground books)

    make_network-Agrees :
        (c : WxOneCluster) (t : Trace)
        → is_empty (subnet_id c) ≡ true
        → Agrees allowance start c t
        → Ends
            (Agrees allowance start)
            (IsAccounted allowance start)
            (make_network env clients helper c)
            t
    unfolding make_network
    make_network-Agrees c t unset h =
        Ends-request_bind _ _ _ h.balanced
          (λ answer.
            Ends-deref_bind (λ e. ground books)
              λ payload e1.
                Ends-deref_bind (λ e. ground books)
                  λ network e2.
                    Ends-first_bind (λ e. ground books)
                      λ entry rest e3.
                        Ends-deref_bind (λ e. ground books)
                          λ subnet e4.
                            Ends-call_bind _ _ (λ _ _. Ends-pure _ (ground books))
                              (λ x _. ground books))
          (λ x. ground books)

    make_floating_ip-Agrees :
        (c : WxOneCluster) (t : Trace)
        → is_empty (floating_ip_id c) ≡ true
        → Agrees allowance start c t
        → Ends
            (Agrees allowance start)
            (IsAccounted allowance start)
            (make_floating_ip env clients helper c)
            t
    unfolding make_floating_ip
    make_floating_ip-Agrees c t unset h =
        Ends-request_bind _ _ _ h.balanced
          (λ answer.
            Ends-deref_bind (λ e. ground books)
              λ payload e1.
                Ends-deref_bind (λ e. ground books)
                  λ address e2.
                    Ends-call_bind _ _ (λ _ _. Ends-pure _ (ground books)) (λ x _. ground books))
          (λ x. ground books)

    make_ssh_key-Agrees :
        (c : WxOneCluster) (t : Trace)
        → is_empty (ssh_key_id c) ≡ true
        → Agrees allowance start c t
        → Ends
            (Agrees allowance start)
            (IsAccounted allowance start)
            (make_ssh_key env clients helper c)
            t
    unfolding make_ssh_key
    make_ssh_key-Agrees c t unset h =
        Ends-request_bind _ _ _ h.balanced
          (λ answer.
            Ends-deref_bind (λ e. ground books)
              λ payload e1.
                Ends-deref_bind (λ e. ground books)
                  λ key e2.
                    Ends-call_bind _ _ (λ _ _. Ends-pure _ (ground books)) (λ x _. ground books))
          (λ x. ground books)

    mark_ready-Agrees :
        (cluster : CapiCluster) (c : WxOneCluster) (t : Trace)
        → Agrees allowance start c t
        → Ends
            (Agrees allowance start)
            (IsAccounted allowance start)
            (mark_ready env clients helper cluster c)
            t
    unfolding mark_ready
    mark_ready-Agrees cluster c t h =
        Ends-call_bind _ _ (λ _ _. Ends-pure _ (ground books)) (λ x _. ground books)

  add_finalizer-Agrees :
      (helper : PatchHelper) (c : WxOneCluster) (t : Trace)
      → Agrees allowance start c t
      → Ends (Agrees allowance start) (IsAccounted allowance start) (add_finalizer env helper c) t
  unfolding add_finalizer
  add_finalizer-Agrees helper c t h =
      Ends-call_bind _ _ (λ _ _. Ends-pure _ (ground books)) (λ x _. ground books)

  new_helper-Agrees :
      (c : WxOneCluster) (t : Trace)
      → Agrees allowance start c t
      → Ends (λ _. Agrees allowance start c) (IsAccounted allowance start) (new_helper env c) t
  unfolding new_helper
  new_helper-Agrees c t h =
      Ends-bind (Ends-consult {Q = λ _. Agrees allowance start c} _ h.balanced (λ _ _. h))
        λ _ t1 h1. Ends-pure _ h1

  Agrees-IsClosed : (c : WxOneCluster) → IsClosed (Agrees allowance start c)
  Agrees-IsClosed c = record {
    read_closed = λ q t h. ground books;
    posted_closed = λ url body t h. ground books;
    asked_closed = λ q t h. ground books;
  }

  pub reconcile_normal-Agrees :
      (c : WxOneCluster) (cluster : CapiCluster) (t : Trace)
      → Agrees allowance start c t
      → Ends
          (Agrees allowance start)
          (IsAccounted allowance start)
          (reconcile_normal env c cluster)
          t
  unfolding reconcile_normal ensure_network ensure_floating_ip ensure_ssh_key ensure_ready
      ensure_project
  reconcile_normal-Agrees c cluster t h = Ends-bind (new_helper-Agrees c t h) λ helper t1 h1.
      Ends-bind (add_finalizer-Agrees helper c t1 h1) λ c1 t2 h2.
        Ends-bind
          (Ends-weaken (connect-Keeps env (Agrees allowance start c1) (Agrees-IsClosed c1) c1 t2 h2)
            (λ _ u p. p) (λ u p. p.balanced))
          λ clients t3 h3.
            Ends-bind
              (Ends-if (λ _. fetch_project-Agrees clients helper c1 t3 h3) (λ _. Ends-pure _ h3))
              λ c2 t4 h4.
                Ends-bind
                  (Ends-if (λ e. make_network-Agrees clients helper c2 t4 e h4)
                    (λ _. Ends-pure _ h4))
                  λ c3 t5 h5.
                    Ends-bind
                      (Ends-if (λ e. make_floating_ip-Agrees clients helper c3 t5 e h5)
                        (λ _. Ends-pure _ h5))
                      λ c4 t6 h6.
                        Ends-bind
                          (Ends-if (λ e. make_ssh_key-Agrees clients helper c4 t6 e h6)
                            (λ _. Ends-pure _ h6))
                          λ c5 t7 h7.
                            Ends-if (λ _. mark_ready-Agrees clients helper cluster c5 t7 h7)
                              (λ _. Ends-pure _ h7)
