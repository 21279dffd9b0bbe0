-- ===== src/Cluster/Accounting/Runs.antt =====
-- Any number of reconciles of one cluster, each from the object that the one before it left.
use capi_wx_one.Base.{List, [], ◌∷◌, refl}
use capi_wx_one.Api.{WxOneCluster, CapiCluster}
use capi_wx_one.Effects.{Env, Trace}
use capi_wx_one.Effects.Ends.{Ends-trace}
use capi_wx_one.Cluster.Reconciler.{reconcile_normal}
use capi_wx_one.Cluster.Accounting.{IsAccounted, Numbers, stored}
use capi_wx_one.Cluster.Accounting.Normal.{reconcile_normal-Agrees}

-- The controller's queue calls the reconciler again and again; each call may meet another
-- environment, and ends as it may.
abbrev pub retries : WxOneCluster → List (Env × CapiCluster) → Trace → Trace
retries start [] t = t
retries start ((env, cluster) ∷ rest) t =
    retries start rest (reconcile_normal env (stored start t) cluster t).1

-- One reconcile from the stored object keeps the books under any allowance.
pub reconcile_normal-IsAccounted :
    (env : Env) (allowance : Numbers) (start : WxOneCluster) (cluster : CapiCluster) (t : Trace)
    → IsAccounted allowance start t
    → IsAccounted allowance start (reconcile_normal env (stored start t) cluster t).1
reconcile_normal-IsAccounted env allowance start cluster t h =
    Ends-trace (λ _ u p. p.balanced) (λ u p. p)
      (reconcile_normal-Agrees env allowance start (stored start t) cluster t (record {
        same = record { same_subnet = refl; same_address = refl; same_key = refl };
        balanced = h;
      }))

abbrev nothing : Numbers
nothing = record { networks = 0; floating_ips = 0; keys = 0 }
