-- ===== src/Machine/Accounting/Normal.antt =====
-- The books from the instance on, and over all of reconcileNormal.
use capi_wx_one.Base.{
  ◌≤◌, String, ◌≡◌, refl, true, false, Option, none, some, List, [], ◌∷◌, is_empty,
}
use capi_wx_one.Api.{WxOneCluster, WxOneMachine, CapiCluster, CapiMachine}
use capi_wx_one.Clients.{WxOneClients}
use capi_wx_one.Graphql.Operations
use capi_wx_one.Graphql.Responses.{CreatedInstance}
use capi_wx_one.Effects.{Env, Trace}
use capi_wx_one.Effects.Ends.{
  Ends, Ends-bind, Ends-pure, Ends-embed, Ends-deref_bind, Ends-first_bind, Ends-call_bind,
  Ends-request_bind, Ends-weaken, Ends-call_reply,
}
use capi_wx_one.Cluster.Accounting.{books, count, one_if_set}
use capi_wx_one.Machine.Stages.{
  PatchHelper, patch, instance_id, attachement_id, read_addresses, record_instance, make_instance,
  attach,
}
use capi_wx_one.Machine.Reconciler.{reconcile_normal}
use capi_wx_one.Machine.Accounting.{
  Numbers, Explains, instance_deleted, detach_asked, IsAccounted, Agrees, has_nil, stored,
  instance_of,
}
use capi_wx_one.Machine.Walk.{Walk, connected-Walk, bootstrap_data-Walk}
use capi_wx_one.Machine.Accounting.Setup.{
  Agrees-IsClosed, ensure_hook-Agrees, new_helper-Agrees, add_finalizer-Agrees,
}

-- The loop over the addresses makes no call, and stops at the first nil entry.
read_addresses-Ends :
    (env : Env) (P : Trace → Type 0) (l : List (Option String)) (t : Trace)
    → P t
    → Ends
        (λ _ u. P u × (has_nil l ≡ false))
        (λ u. P u × (has_nil l ≡ true))
        (read_addresses env l)
        t
unfolding read_addresses
read_addresses-Ends env P [] t h = Ends-pure _ (h, refl)
read_addresses-Ends env P (none ∷ r) t h = Ends-deref_bind (λ e. (h, refl)) (λ a e. absurd (cc))
read_addresses-Ends env P (some s ∷ r) t h =
    Ends-deref_bind (λ e. absurd (cc))
      λ a e. Ends-bind (read_addresses-Ends env P r t h) λ rest u hu. Ends-pure _ hu

-- Between the answer of createInstance and the patch that records it.
record Pending (allowance : Numbers) (start m : WxOneMachine) (i : CreatedInstance) (t : Trace)
    : Type 0 where
  unset : is_empty (instance_id (stored start t)) ≡ true
  same_attachement : is_empty (attachement_id m) ≡ is_empty (attachement_id (stored start t))
  one_more :
      Explains allowance
        (record {
          instances = one_if_set (instance_of (some i));
          attachements = one_if_set (attachement_id (stored start t));
        })
        t
  paid_instances : allowance.instances ≤ count instance_deleted t
  paid_attachements : allowance.attachements ≤ count detach_asked t

module _ (env : Env) (allowance : Numbers) (start : WxOneMachine) where
  module _ (clients : WxOneClients) (helper : PatchHelper) (wx : WxOneCluster) where
    record_instance-Agrees :
        (m : WxOneMachine) (i : CreatedInstance) (t : Trace)
        → Pending allowance start m i t
        → Ends
            (Agrees allowance start)
            (IsAccounted allowance start)
            (record_instance env clients helper wx m i)
            t
    unfolding record_instance
    record_instance-Agrees m i t h =
        Ends-bind
          (Ends-weaken (read_addresses-Ends env (Pending allowance start m i) i.addresses t h)
            (λ _ u p. p) (λ u p. ground (books, p.0, p.1)))
          λ addresses t1 h1.
            Ends-call_bind _ _ (λ _ _. Ends-pure _ (ground books)) (λ x _. ground books)

    make_instance-Agrees :
        (machine : CapiMachine) (secret_name : String) (m : WxOneMachine) (t : Trace)
        → is_empty (instance_id m) ≡ true
        → Agrees allowance start m t
        → Ends
            (Agrees allowance start)
            (IsAccounted allowance start)
            (make_instance env clients helper wx machine secret_name m)
            t
    unfolding make_instance Operations.create_instance
    make_instance-Agrees machine secret_name m t unset h =
        Ends-call_bind _ _
          (λ secret _.
            Ends-bind
              (bootstrap_data-Walk env (Agrees allowance start m) (IsAccounted allowance start)
                (λ u p. p.balanced) _ _ (ground books))
              λ value t1 h1.
                Ends-bind (Ends-embed {Q = λ _. Agrees allowance start m} h1.balanced (λ _ _. h1))
                  λ raw t2 h2.
                    Ends-request_bind _ _ _ h2.balanced
                      (λ answer.
                        Ends-deref_bind (λ e. ground books)
                          λ payload e1.
                            Ends-deref_bind (λ e. ground books)
                              λ i e2. record_instance-Agrees m i _ (ground books))
                      (λ x. ground books))
          (λ _ _. ground books)

    attach-Agrees :
        (m : WxOneMachine) (t : Trace)
        → is_empty (attachement_id m) ≡ true
        → Agrees allowance start m t
        → Ends
            (Agrees allowance start)
            (IsAccounted allowance start)
            (attach env clients helper wx m)
            t
    unfolding attach
    attach-Agrees m t unset h =
        Ends-request_bind _ _ _ h.balanced
          (λ answer.
            Ends-deref_bind (λ e. ground books)
              λ payload e1.
                Ends-first_bind (λ e. ground books)
                  λ entry rest e2.
                    Ends-deref_bind (λ e. ground books)
                      λ member e3.
                        Ends-call_bind _ _ (λ _ _. Ends-pure _ (ground books))
                          (λ x _. ground books))
          (λ x. ground books)

  -- A patch of fields other than the two ids.
  patch-Agrees :
      (helper : PatchHelper) (m m' : WxOneMachine) (t : Trace)
      → instance_id m ≡ instance_id m'
      → attachement_id m ≡ attachement_id m'
      → Agrees allowance start m t
      → Ends (λ _. Agrees allowance start m') (IsAccounted allowance start) (patch env helper m') t
  unfolding patch
  patch-Agrees helper m m' t same_id same_attachement h =
      Ends-call_reply _ _ (λ _. ground books) (λ _. ground books)

  Agrees-Walk : Walk env (Agrees allowance start) (IsAccounted allowance start)
  Agrees-Walk = record {
    stops = λ h. h.balanced;
    closed = Agrees-IsClosed env allowance start;
    flavor = λ helper m id t h. patch-Agrees helper m _ t refl refl h;
    image = λ helper m id t h. patch-Agrees helper m _ t refl refl h;
    ready = λ helper m t running h. patch-Agrees helper m _ t refl refl h;
    instance_made = λ clients helper wx machine secret m t unset h.
        make_instance-Agrees clients helper wx machine secret m t unset h;
    attached = λ clients helper wx m t unset h. attach-Agrees clients helper wx m t unset h;
  }

  pub reconcile_normal-Agrees :
      (cluster : CapiCluster) (wx : WxOneCluster) (machine : CapiMachine) (m : WxOneMachine)
      (t : Trace)
      → Agrees allowance start m t
      → Ends
          (λ s. Agrees allowance start s.0)
          (IsAccounted allowance start)
          (reconcile_normal env cluster wx machine m)
          t
  unfolding reconcile_normal
  reconcile_normal-Agrees cluster wx machine m t h =
      Ends-bind (ensure_hook-Agrees env allowance start m machine t h) λ machine' t1 h1.
        Ends-bind (new_helper-Agrees env allowance start m t1 h1) λ helper t2 h2.
          Ends-bind (add_finalizer-Agrees env allowance start helper m t2 h2) λ m1 t3 h3.
            connected-Walk env (Agrees allowance start) (IsAccounted allowance start) Agrees-Walk wx
              helper cluster.infrastructure_ready machine' m1 t3 h3
