-- ===== src/Machine/Reconciler.antt =====
-- Reconcile and reconcileNormal of the WXOneMachine controller, and the map from a WXOneCluster to
-- the requests that it enqueues.
use capi_wx_one.Base.{
  String, Bool, true, false, Option, none, some, List, [], ◌∷◌, is_empty, if◌then◌else◌,
}
use capi_wx_one.Api.{WxOneCluster, WxOneMachine, CapiCluster, CapiMachine, NamespacedName}
use capi_wx_one.Clients.{WxOneClients}
use capi_wx_one.Cluster.Stages.{connect}
use capi_wx_one.Cluster.Reconciler.{is_zero_time}
use capi_wx_one.Effects.{
  Env, Exec, Reply, done, failed, Outcome, ok, err, panic, ◌>>=◌, ◌>>◌, call, attempt, pure, throw,
  deref, Event, Query, is_not_found, is_not_connected,
}
use capi_wx_one.Machine.Stages.{
  PatchHelper, Result, new_helper, ensure_hook, add_finalizer, ensure_flavor, ensure_image,
  ensure_instance, ensure_attachement, ensure_ready,
}
use capi_wx_one.Machine.Removal.{reconcile_delete, get_owner_machine}

abbrev pub no_requeue : Result
no_requeue = record { requeue_after = 0 }

module _ (env : Env) where
  module _ (clients : WxOneClients) (helper : PatchHelper) (wx : WxOneCluster) where
    -- The part of reconcileNormal below its two early returns.
    unfoldable pub provision : CapiMachine → String → WxOneMachine → Exec (WxOneMachine × Result)
    provision machine secret_name m = do
      m1 ← ensure_flavor env clients helper wx m
      m2 ← ensure_image env clients helper wx m1
      m3 ← ensure_instance env clients helper wx machine secret_name m2
      m4 ← ensure_attachement env clients helper wx machine m3
      ensure_ready env clients helper wx machine m4

    unfoldable pub with_bootstrap :
        CapiMachine → Option String → WxOneMachine → Exec (WxOneMachine × Result)
    with_bootstrap machine none m = pure (m, record { requeue_after = 10 })
    with_bootstrap machine (some secret_name) m = provision machine secret_name m

    unfoldable pub when_infrastructure_ready :
        Bool → CapiMachine → WxOneMachine → Exec (WxOneMachine × Result)
    when_infrastructure_ready false machine m = pure (m, no_requeue)
    when_infrastructure_ready true machine m = with_bootstrap machine machine.data_secret_name m

  unfoldable pub reconcile_normal :
      CapiCluster → WxOneCluster → CapiMachine → WxOneMachine → Exec (WxOneMachine × Result)
  reconcile_normal cluster wx machine m = do
    machine' ← ensure_hook env machine
    helper ← new_helper env m
    m1 ← add_finalizer env helper m
    clients ← connect env wx
    when_infrastructure_ready clients helper wx cluster.infrastructure_ready machine' m1

  -- `errors.Is(err, clustercache.ErrClusterNotConnected)` turns the error into a requeue.
  abbrev pub requeue_outcome : Outcome Result → Outcome Result
  requeue_outcome (ok r) = ok r
  requeue_outcome (err e) = if is_not_connected e then ok (record { requeue_after = 60 }) else err e
  requeue_outcome panic = panic

  unfoldable pub requeue_if_not_connected : Exec Result → Exec Result
  requeue_if_not_connected action t = let (r, t') = action t in (requeue_outcome r, t')

  unfoldable pub dispatch : CapiCluster → WxOneCluster → CapiMachine → WxOneMachine → Exec Result
  dispatch cluster wx machine m =
      if is_zero_time m.meta.deletion_timestamp
      then requeue_if_not_connected (reconcile_normal cluster wx machine m >>= λ (_, res). pure res)
      else (reconcile_delete env wx m >>= λ (_, res). pure res)

  unfoldable pub with_wx_one_cluster :
      CapiCluster → CapiMachine → WxOneMachine → Reply WxOneCluster → Exec Result
  with_wx_one_cluster cluster machine m (failed e) = pure no_requeue
  with_wx_one_cluster cluster machine m (done wx) = dispatch cluster wx machine m

  unfoldable pub with_infrastructure :
      CapiCluster → Option String → CapiMachine → WxOneMachine → Exec Result
  with_infrastructure cluster none machine m = pure no_requeue
  with_infrastructure cluster (some name) machine m = do
    let key : NamespacedName = record { namespace = m.meta.namespace; name = name }
    wx ← attempt (λ t. env.kube.get_cluster t key) (λ _. Event.read (Query.get_cluster key))
    with_wx_one_cluster cluster machine m wx

  unfoldable pub with_cluster : Option CapiCluster → CapiMachine → WxOneMachine → Exec Result
  with_cluster none machine m = pure no_requeue
  with_cluster (some cluster) machine m =
      with_infrastructure cluster cluster.infrastructure_ref machine m

  unfoldable pub with_owner : Option CapiMachine → WxOneMachine → Exec Result
  with_owner none m = pure no_requeue
  with_owner (some machine) m = do
    cluster ←
        call (λ t. env.kube.get_cluster_from_metadata t machine)
          (λ _. Event.read (Query.cluster_of_metadata machine.name))
    with_cluster cluster machine m

  unfoldable pub with_machine : Reply WxOneMachine → Exec Result
  with_machine (failed e) = if is_not_found e then pure no_requeue else throw e
  with_machine (done m) = do
    call (λ t. env.kube.add_owners t m) (λ _. Event.read (Query.owners m.meta.name))
    owner ← get_owner_machine env m
    with_owner owner m

  unfoldable pub reconcile : NamespacedName → Exec Result
  reconcile name = do
    found ← attempt (λ t. env.kube.get_machine t name) (λ _. Event.read (Query.get_machine name))
    with_machine found

  -- The loop over machineList.Items: a request for each machine that has an infrastructure
  -- reference, under the machine's own name.
  unfoldable pub requests_of : List CapiMachine → List NamespacedName
  requests_of [] = []
  requests_of (m ∷ ms) =
      let rest = requests_of ms in
      if is_empty m.infrastructure_ref_name
      then rest
      else record { namespace = m.namespace; name = m.name } ∷ rest

  unfoldable pub list_requests : Reply (List CapiMachine) → List NamespacedName
  unfolding requests_of
  list_requests (failed e) = []
  list_requests (done ms) = requests_of ms

  unfoldable pub requests_for_owner :
      String → Reply (Option CapiCluster) → Exec (List NamespacedName)
  unfolding list_requests
  requests_for_owner namespace (failed e) = pure []
  requests_for_owner namespace (done none) = pure []
  requests_for_owner namespace (done (some cluster)) = do
    ms ←
        attempt (λ t. env.kube.list_machines t namespace cluster.name)
          (λ _. Event.read (Query.list_machines namespace cluster.name))
    pure (list_requests ms)

  -- WXOneClusterToWXOneMachines; `none` is an object of another type.
  unfoldable pub wx_one_cluster_to_wx_one_machines :
      Option WxOneCluster → Exec (List NamespacedName)
  wx_one_cluster_to_wx_one_machines o = do
    c ← deref o
    owner ←
        attempt (λ t. env.kube.get_owner_cluster t c.meta)
          (λ _. Event.read (Query.owner_cluster c.meta.name))
    requests_for_owner c.meta.namespace owner
