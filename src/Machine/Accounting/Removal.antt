-- ===== src/Machine/Accounting/Removal.antt =====
-- The books, part by part of reconcileDelete of the WXOneMachine controller.
use capi_wx_one.Base.{refl, not, ◌&&◌, ◌||◌, is_empty}
use capi_wx_one.Api.{WxOneCluster, WxOneMachine, CapiMachine}
use capi_wx_one.Graphql.Operations
use capi_wx_one.Clients.{WxOneClients}
use capi_wx_one.Effects.{Env, Trace}
use capi_wx_one.Effects.Ends.{
  Ends, IsClosed, Ends-bind, Ends-pure, Ends-if, Ends-lift, Ends-call_reply, Ends-call_bind,
  Ends-attempt, Ends-deref_bind, Ends-request_bind, Ends-consult, Ends-weaken, Ends-trace,
}
use capi_wx_one.Cluster.Keeps.{connect-Keeps}
use capi_wx_one.Cluster.Accounting.{books, one_if_set}
use capi_wx_one.Machine.Stages.{
  PatchHelper, Result, new_helper, instance_id, attachement_id, has_annotation,
}
use capi_wx_one.Machine.Removal.{is_attached}
use capi_wx_one.Machine.Removal
use capi_wx_one.Machine.Accounting.{IsMatched, SameIds, Explains, deletions, stored}

-- The object in memory has an id exactly where the stored one has, and the trace is matched.
record Matches (start m : WxOneMachine) (t : Trace) : Type 0 where
  same : SameIds start m t
  matched : IsMatched start t

-- After a request to detach: the trace is matched as if no attachement were recorded.
record Detached (start m : WxOneMachine) (t : Trace) : Type 0 where
  same : SameIds start m t
  spare :
      Explains
        (deletions t)
        (record { instances = one_if_set (instance_id (stored start t)); attachements = 0 })
        t
  matched : IsMatched start t

module _ (env : Env) (start : WxOneMachine) where
  module _ (clients : WxOneClients) (helper : PatchHelper) (wx : WxOneCluster) where
    detach_request-Detached :
        (m : WxOneMachine) (t : Trace)
        → Matches start m t
        → Ends
            (λ _. Detached start m)
            (IsMatched start)
            (Operations.delete_floating_group_by_floating_ip_id_and_instance_id env
              clients.graphql_client wx.status.project.resource_id wx.status.floating_ip.resource_id
              (instance_id m))
            t
    unfolding Operations.delete_floating_group_by_floating_ip_id_and_instance_id
    detach_request-Detached m t h =
        Ends-deref_bind (λ _. h.matched) λ c _. Ends-attempt _ _ (ground books)

    forget_attachement-Matches :
        (m : WxOneMachine) (t : Trace)
        → Detached start m t
        → Ends
            (Matches start)
            (IsMatched start)
            (Removal.forget_attachement env clients helper wx m)
            t
    unfolding Removal.forget_attachement
    forget_attachement-Matches m t h =
        Ends-call_bind _ _ (λ _ _. Ends-pure _ (ground books)) (λ x _. ground books)

    withdraw_route-Matches :
        (m : WxOneMachine) (t : Trace)
        → Matches start m t
        → Ends (Matches start) (IsMatched start) (Removal.withdraw_route env clients helper wx m) t
    unfolding Removal.withdraw_route
    withdraw_route-Matches m t h = Ends-bind (detach_request-Detached m t h) λ r t1 h1.
        Ends-bind {Q = λ _. Detached start m} (Ends-lift h1.matched (λ _ _. h1))
          λ answer t2 h2. forget_attachement-Matches m t2 h2

    detach-Matches :
        (m : WxOneMachine) (t : Trace)
        → Matches start m t
        → Ends (Matches start) (IsMatched start) (Removal.detach env clients helper wx m) t
    unfolding Removal.detach
    detach-Matches m t h =
        Ends-bind (detach_request-Detached m t h) λ r t1 h1. forget_attachement-Matches m t1 h1

    abbrev MatchesResult : WxOneMachine × Result → Trace → Type 0
    MatchesResult s = Matches start s.0

    remove_hook-Matches :
        (machine : CapiMachine) (m : WxOneMachine) (t : Trace)
        → Matches start m t
        → Ends MatchesResult
            (IsMatched start)
            (Removal.remove_hook env clients helper wx machine m)
            t
    unfolding Removal.remove_hook Removal.ensure_withdrawn
    remove_hook-Matches machine m t h =
        Ends-bind
          (Ends-if {b = is_attached env machine m} (λ _. withdraw_route-Matches m t h)
            (λ _. Ends-pure m h))
          λ m1 t1 h1. Ends-call_bind _ _ (λ _ _. Ends-pure _ (ground books)) (λ _ _. ground books)

    drop_instance-Matches :
        (m : WxOneMachine) (t : Trace)
        → Matches start m t
        → Ends (Matches start) (IsMatched start) (Removal.drop_instance env clients helper wx m) t
    unfolding Removal.drop_instance
    drop_instance-Matches m t h =
        Ends-request_bind _ _ _ h.matched
          (λ _. Ends-call_bind _ _ (λ _ _. Ends-pure _ (ground books)) (λ x _. ground books))
          (λ x. ground books)

    drop_finalizer-Matches :
        (m : WxOneMachine) (t : Trace)
        → Matches start m t
        → Ends MatchesResult (IsMatched start) (Removal.drop_finalizer env clients helper wx m) t
    unfolding Removal.drop_finalizer
    drop_finalizer-Matches m t h =
        Ends-call_bind _ _ (λ _ _. Ends-pure _ (ground books)) (λ x _. ground books)

    tear_down-Matches :
        (machine : CapiMachine) (m : WxOneMachine) (t : Trace)
        → Matches start m t
        → Ends MatchesResult (IsMatched start) (Removal.tear_down env clients helper wx machine m) t
    unfolding Removal.tear_down Removal.ensure_detached Removal.ensure_no_instance Removal.release
    tear_down-Matches machine m t h =
        Ends-bind
          (Ends-if {b = is_attached env machine m} (λ _. detach-Matches m t h) (λ _. Ends-pure m h))
          λ m1 t1 h1.
            Ends-bind
              (Ends-if
                {b = not (is_empty (instance_id m1))
                  && ((env.kube.is_control_plane_machine machine && is_empty (attachement_id m1))
                      || not (env.kube.is_control_plane_machine machine))}
                (λ _. drop_instance-Matches m1 t1 h1) (λ _. Ends-pure m1 h1))
              λ m2 t2 h2.
                Ends-if {b = is_empty (instance_id m2)} (λ _. drop_finalizer-Matches m2 t2 h2)
                  (λ _. Ends-pure (m2, record { requeue_after = 10 }) h2)

    by_hook-Matches :
        (machine : CapiMachine) (m : WxOneMachine) (t : Trace)
        → Matches start m t
        → Ends MatchesResult (IsMatched start) (Removal.by_hook env clients helper wx machine m) t
    unfolding Removal.by_hook
    by_hook-Matches machine m t h =
        Ends-if {b = has_annotation machine.annotations} (λ _. remove_hook-Matches machine m t h)
          (λ _. tear_down-Matches machine m t h)

  Matches-IsClosed : (m : WxOneMachine) → IsClosed (Matches start m)
  Matches-IsClosed m = record {
    read_closed = λ q t h. ground books;
    posted_closed = λ url body t h. ground books;
    asked_closed = λ q t h. ground books;
  }

  new_helper-Matches :
      (m : WxOneMachine) (t : Trace)
      → Matches start m t
      → Ends (λ _. Matches start m) (IsMatched start) (new_helper env m) t
  unfolding new_helper
  new_helper-Matches m t h =
      Ends-bind (Ends-consult {Q = λ _. Matches start m} _ h.matched (λ _ _. h))
        λ _ t1 h1. Ends-pure _ h1

  get_owner_machine-Matches :
      (m : WxOneMachine) (t : Trace)
      → Matches start m t
      → Ends (λ _. Matches start m) (IsMatched start) (Removal.get_owner_machine env m) t
  unfolding Removal.get_owner_machine
  get_owner_machine-Matches m t h = Ends-call_reply _ _ (λ _. ground books) (λ _. ground books)

  reconcile_delete-Matches :
      (wx : WxOneCluster) (m : WxOneMachine) (t : Trace)
      → Matches start m t
      → Ends (λ s. Matches start s.0) (IsMatched start) (Removal.reconcile_delete env wx m) t
  unfolding Removal.reconcile_delete
  reconcile_delete-Matches wx m t h = Ends-bind (new_helper-Matches m t h) λ helper t1 h1.
      Ends-bind
        (Ends-weaken (connect-Keeps env (Matches start m) (Matches-IsClosed m) wx t1 h1)
          (λ _ u p. p) (λ u p. p.matched))
        λ clients t2 h2. Ends-bind (get_owner_machine-Matches m t2 h2) λ owner t3 h3.
          Ends-deref_bind (λ _. h3.matched)
            λ machine _. by_hook-Matches clients helper wx machine m t3 h3

-- One deletion from the stored object keeps the trace matched.
pub reconcile_delete-IsMatched :
    (env : Env) (wx : WxOneCluster) (start : WxOneMachine) (t : Trace)
    → IsMatched start t
    → IsMatched start (Removal.reconcile_delete env wx (stored start t) t).1
reconcile_delete-IsMatched env wx start t h =
    Ends-trace {Q = λ s. Matches start s.0} (λ _ u p. p.matched) (λ u p. p)
      (reconcile_delete-Matches env start wx (stored start t) t
        (record { same = record { same_instance = refl; same_attachement = refl }; matched = h }))
