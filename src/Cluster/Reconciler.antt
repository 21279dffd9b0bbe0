-- ===== src/Cluster/Reconciler.antt =====
-- Reconcile, reconcileNormal and reconcileDelete of the WXOneCluster controller. A reconcile's
-- result is always `ctrl.Result{}` here, so only its error is kept. Go's functions end at the last
-- value of the object; it is handed out so that statements can speak of it.
use capi_wx_one.Base.{⊤, ℕ, zero, suc, Bool, true, false, Option, none, some, if◌then◌else◌}
use capi_wx_one.Api.{WxOneCluster, CapiCluster, NamespacedName}
use capi_wx_one.Effects.{
  Env, Exec, Reply, done, failed, ◌>>=◌, call, attempt, throw, pure, Event, Query, is_not_found,
}
use capi_wx_one.Cluster.Stages.{
  new_helper, add_finalizer, connect, ensure_project, ensure_network, ensure_floating_ip,
  ensure_ssh_key, ensure_ready, remove_network, remove_floating_ip, remove_ssh_key, release,
}

-- `DeletionTimestamp.IsZero()`, true of a nil pointer and of the zero time
unfoldable pub is_zero_time : Option ℕ → Bool
is_zero_time none = true
is_zero_time (some zero) = true
is_zero_time (some (suc n)) = false

module _ (env : Env) where
  unfoldable pub reconcile_normal : WxOneCluster → CapiCluster → Exec WxOneCluster
  reconcile_normal c cluster = do
    helper ← new_helper env c
    c1 ← add_finalizer env helper c
    clients ← connect env c1
    c2 ← ensure_project env clients helper c1
    c3 ← ensure_network env clients helper c2
    c4 ← ensure_floating_ip env clients helper c3
    c5 ← ensure_ssh_key env clients helper c4
    ensure_ready env clients helper cluster c5

  unfoldable pub reconcile_delete : WxOneCluster → Exec WxOneCluster
  reconcile_delete c = do
    helper ← new_helper env c
    clients ← connect env c
    c1 ← remove_network env clients helper c
    c2 ← remove_floating_ip env clients helper c1
    c3 ← remove_ssh_key env clients helper c2
    release env clients helper c3

  -- The part of Reconcile below the two lookups.
  unfoldable pub dispatch : WxOneCluster → Option CapiCluster → Exec ⊤
  unfolding is_zero_time
  dispatch c none = pure tt
  dispatch c (some cluster) =
      if is_zero_time c.meta.deletion_timestamp
      then (reconcile_normal c cluster >>= λ _. pure tt)
      else (reconcile_delete c >>= λ _. pure tt)

  unfoldable pub dispatch_found : Reply WxOneCluster → Exec ⊤
  unfolding dispatch
  dispatch_found (failed e) = if is_not_found e then pure tt else throw e
  dispatch_found (done c) = do
    owner ←
        call (λ t. env.kube.get_owner_cluster t c.meta)
          (λ _. Event.read (Query.owner_cluster c.meta.name))
    dispatch c owner

  unfoldable pub reconcile : NamespacedName → Exec ⊤
  unfolding dispatch_found
  reconcile name = do
    found ← attempt (λ t. env.kube.get_cluster t name) (λ _. Event.read (Query.get_cluster name))
    dispatch_found found
