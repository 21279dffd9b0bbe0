-- ===== src/Cluster/Accounting/Life.antt =====
-- Any sequence of reconciles of one cluster, deletions among them.
use capi_wx_one.Base.{List, [], ◌∷◌, arith}
use capi_wx_one.Api.{WxOneCluster, CapiCluster}
use capi_wx_one.Effects.{Env, Trace}
use capi_wx_one.Cluster.Reconciler.{reconcile_normal, reconcile_delete}
use capi_wx_one.Cluster.Accounting.{IsMatched, IsAccounted, deletions, stored}
use capi_wx_one.Cluster.Accounting.Runs.{reconcile_normal-IsAccounted}
use capi_wx_one.Cluster.Accounting.Removal.{reconcile_delete-IsMatched}

-- One reconcile, of a cluster that is not deleted or of one that is, in some environment.
pub data Step : Type 0 where
  normal : Env → CapiCluster → Step
  removal : Env → Step

abbrev pub step : Step → WxOneCluster → Trace → Trace
step (normal env cluster) c t = (reconcile_normal env c cluster t).1
step (removal env) c t = (reconcile_delete env c t).1

-- Each reconcile starts from the object that the last accepted patch stored.
abbrev pub run : WxOneCluster → List Step → Trace → Trace
run start [] t = t
run start (s ∷ rest) t = run start rest (step s (stored start t) t)

open_allowance :
    (start : WxOneCluster) (t : Trace) → IsMatched start t → IsAccounted (deletions t) start t
open_allowance start t h = ground arith

close_allowance :
    (start : WxOneCluster) (t u : Trace) → IsAccounted (deletions t) start u → IsMatched start u
close_allowance start t u h = ground arith

step-IsMatched :
    (s : Step) (start : WxOneCluster) (t : Trace)
    → IsMatched start t
    → IsMatched start (step s (stored start t) t)
step-IsMatched (normal env cluster) start t h =
    close_allowance start t _
      (reconcile_normal-IsAccounted env (deletions t) start cluster t (open_allowance start t h))
step-IsMatched (removal env) start t h = reconcile_delete-IsMatched env start t h

run-IsMatched_from :
    (start : WxOneCluster) (steps : List Step) (t : Trace)
    → IsMatched start t
    → IsMatched start (run start steps t)
run-IsMatched_from start [] t h = h
run-IsMatched_from start (s ∷ rest) t h =
    run-IsMatched_from start rest _ (step-IsMatched s start t h)

-- Over any sequence of reconcileNormal and reconcileDelete of a cluster from a fresh trace, in any
-- environments and however each ends, each starting from the object that the last accepted patch
-- stored: the networks that WX-ONE made with a subnet id number at most the answered deletions of
-- networks, the lost patches, and one more if the stored object records a subnet; so too the
-- floating IPs and the SSH keys.
pub run-IsMatched :
    (start : WxOneCluster) (steps : List Step) → IsMatched start (run start steps [])
run-IsMatched start steps = run-IsMatched_from start steps [] (ground arith)
