-- ===== src/Cluster/Accounting/Removal.antt =====
-- The books, part by part of reconcileDelete.
use capi_wx_one.Base.{◌≡◌, false, is_empty, ◌&&◌, refl}
use capi_wx_one.Api.{WxOneCluster}
use capi_wx_one.Clients.{WxOneClients}
use capi_wx_one.Effects.{Env, Trace}
use capi_wx_one.Effects.Ends.{
  Ends, IsClosed, Ends-bind, Ends-pure, Ends-if, Ends-call_bind, Ends-request_bind, Ends-consult,
  Ends-weaken, Ends-trace,
}
use capi_wx_one.Cluster.Stages.{
  PatchHelper, subnet_id, floating_ip_id, ssh_key_id, remove_network, remove_floating_ip,
  remove_ssh_key, drop_network, drop_floating_ip, drop_ssh_key, drop_finalizer, release, new_helper,
}
use capi_wx_one.Cluster.Keeps.{connect-Keeps}
use capi_wx_one.Cluster.Reconciler.{reconcile_delete}
use capi_wx_one.Cluster.Accounting.{books, IsMatched, SameIds, stored}

-- The object in memory has an id exactly where the stored one has, and the trace is matched.
record Matches (start c : WxOneCluster) (t : Trace) : Type 0 where
  same : SameIds start c t
  matched : IsMatched start t

module _ (env : Env) (start : WxOneCluster) where
  module _ (clients : WxOneClients) (helper : PatchHelper) (c : WxOneCluster) (t : Trace)
      (h : Matches start c t) where
    drop_network-Matches :
        is_empty (subnet_id c) ≡ false
        → Ends (Matches start) (IsMatched start) (drop_network env clients helper c) t
    unfolding drop_network
    drop_network-Matches set =
        Ends-request_bind _ _ _ h.matched
          (λ answer. Ends-call_bind _ _ (λ _ _. Ends-pure _ (ground books)) (λ x _. ground books))
          (λ x. ground books)

    drop_floating_ip-Matches :
        is_empty (floating_ip_id c) ≡ false
        → Ends (Matches start) (IsMatched start) (drop_floating_ip env clients helper c) t
    unfolding drop_floating_ip
    drop_floating_ip-Matches set =
        Ends-request_bind _ _ _ h.matched
          (λ answer. Ends-call_bind _ _ (λ _ _. Ends-pure _ (ground books)) (λ x _. ground books))
          (λ x. ground books)

    drop_ssh_key-Matches :
        is_empty (ssh_key_id c) ≡ false
        → Ends (Matches start) (IsMatched start) (drop_ssh_key env clients helper c) t
    unfolding drop_ssh_key
    drop_ssh_key-Matches set =
        Ends-request_bind _ _ _ h.matched
          (λ answer. Ends-call_bind _ _ (λ _ _. Ends-pure _ (ground books)) (λ x _. ground books))
          (λ x. ground books)

    drop_finalizer-Matches :
        Ends (Matches start) (IsMatched start) (drop_finalizer env clients helper c) t
    unfolding drop_finalizer
    drop_finalizer-Matches =
        Ends-call_bind _ _ (λ _ _. Ends-pure _ (ground books)) (λ x _. ground books)

  new_helper-Matches :
      (c : WxOneCluster) (t : Trace)
      → Matches start c t
      → Ends (λ _. Matches start c) (IsMatched start) (new_helper env c) t
  unfolding new_helper
  new_helper-Matches c t h =
      Ends-bind (Ends-consult {Q = λ _. Matches start c} _ h.matched (λ _ _. h))
        λ _ t1 h1. Ends-pure _ h1

  Matches-IsClosed : (c : WxOneCluster) → IsClosed (Matches start c)
  Matches-IsClosed c = record {
    read_closed = λ q t h. ground books;
    posted_closed = λ url body t h. ground books;
    asked_closed = λ q t h. ground books;
  }

  reconcile_delete-Matches :
      (c : WxOneCluster) (t : Trace)
      → Matches start c t
      → Ends (Matches start) (IsMatched start) (reconcile_delete env c) t
  unfolding reconcile_delete remove_network remove_floating_ip remove_ssh_key release
  reconcile_delete-Matches c t h = Ends-bind (new_helper-Matches c t h) λ helper t1 h1.
      Ends-bind
        (Ends-weaken (connect-Keeps env (Matches start c) (Matches-IsClosed c) c t1 h1) (λ _ u p. p)
          (λ u p. p.matched))
        λ clients t2 h2.
          Ends-bind
            (Ends-if (λ _. Ends-pure _ h2) (λ e. drop_network-Matches clients helper c t2 h2 e))
            λ c1 t3 h3.
              Ends-bind
                (Ends-if (λ _. Ends-pure _ h3)
                  (λ e. drop_floating_ip-Matches clients helper c1 t3 h3 e))
                λ c2 t4 h4.
                  Ends-bind
                    (Ends-if (λ _. Ends-pure _ h4)
                      (λ e. drop_ssh_key-Matches clients helper c2 t4 h4 e))
                    λ c3 t5 h5.
                      Ends-if
                        {b = is_empty (ssh_key_id c3)
                          && is_empty (subnet_id c3)
                          && is_empty (floating_ip_id c3)}
                        (λ _. drop_finalizer-Matches clients helper c3 t5 h5) (λ _. Ends-pure _ h5)

-- One deletion from the stored object keeps the trace matched.
pub reconcile_delete-IsMatched :
    (env : Env) (start : WxOneCluster) (t : Trace)
    → IsMatched start t
    → IsMatched start (reconcile_delete env (stored start t) t).1
reconcile_delete-IsMatched env start t h =
    Ends-trace {Q = Matches start} (λ _ u p. p.matched) (λ u p. p)
      (reconcile_delete-Matches env start (stored start t) t (record {
        same = record { same_subnet = refl; same_address = refl; same_key = refl };
        matched = h;
      }))
