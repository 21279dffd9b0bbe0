-- ===== src/Cluster/Ready.antt =====
-- What reconcileNormal leaves when it returns without an error.
use capi_wx_one.Base.{Bool, true, false, ◌&&◌, not, ◌≡◌, ◌⊎◌, inl, inr, refl, arith, is_empty}
use capi_wx_one.Api.{WxOneCluster, CapiCluster}
use capi_wx_one.Clients.{WxOneClients}
use capi_wx_one.Effects.{Env, Trace}
use capi_wx_one.Effects.Ends.{Ends, Ends-bind, Ends-pure, Ends-if, Ends-call_bind, Ends-any}
use capi_wx_one.Cluster.Stages.{
  PatchHelper, subnet_id, floating_ip_id, ssh_key_id, ensure_ready, mark_ready, set_endpoints,
}
use capi_wx_one.Cluster.Reconciler.{reconcile_normal}
use capi_wx_one.Cluster.Accounting.{stored}

-- The three ids are set.
abbrev pub is_complete : WxOneCluster → Bool
is_complete c =
    not (is_empty (subnet_id c))
    && not (is_empty (floating_ip_id c))
    && not (is_empty (ssh_key_id c))

-- Ready, reachable at its floating IP, and so stored.
pub record IsServing (start c : WxOneCluster) (t : Trace) : Type 0 where
  pub is_ready : c.status.ready ≡ true
  pub at_address :
      c.spec.control_plane_endpoint ≡ record { host = c.status.floating_ip.ip; port = 6443 }
  pub is_stored : stored start t ≡ c

set_endpoints_lem :
    (cluster : CapiCluster) (c : WxOneCluster)
    → (set_endpoints cluster c).1.spec.control_plane_endpoint
      ≡ record { host = c.status.floating_ip.ip; port = 6443 }
unfolding set_endpoints
set_endpoints_lem cluster c = ground arith

module _ (env : Env) (start : WxOneCluster) where
  mark_ready-IsServing :
      (clients : WxOneClients) (helper : PatchHelper) (cluster : CapiCluster) (c : WxOneCluster)
      (t : Trace)
      → Ends
          (λ c' u. (is_complete c' ≡ false) ⊎ IsServing start c' u)
          (λ _. Unit {0})
          (mark_ready env clients helper cluster c)
          t
  unfolding mark_ready
  mark_ready-IsServing clients helper cluster c t =
      Ends-call_bind _ _
        (λ _ _. Ends-pure _ (
          inr (record {
            is_ready = refl;
            at_address = set_endpoints_lem cluster c;
            is_stored = refl;
          })))
        (λ _ _. tt)

  -- When reconcileNormal returns without an error, one of the three ids is not set, or the cluster
  -- is ready, its control plane endpoint is the floating IP's address at port 6443, and the API
  -- server has accepted exactly this object.
  pub reconcile_normal-IsServing :
      (c : WxOneCluster) (cluster : CapiCluster) (t : Trace)
      → Ends
          (λ c' u. (is_complete c' ≡ false) ⊎ IsServing start c' u)
          (λ _. Unit {0})
          (reconcile_normal env c cluster)
          t
  unfolding reconcile_normal ensure_ready
  reconcile_normal-IsServing c cluster t = Ends-bind Ends-any λ helper t1 _.
      Ends-bind Ends-any λ c1 t2 _. Ends-bind Ends-any λ clients t3 _. Ends-bind Ends-any λ c2 t4 _.
        Ends-bind Ends-any λ c3 t5 _. Ends-bind Ends-any λ c4 t6 _. Ends-bind Ends-any λ c5 t7 _.
          Ends-if (λ _. mark_ready-IsServing clients helper cluster c5 t7)
            (λ incomplete. Ends-pure c5 (inl incomplete))
