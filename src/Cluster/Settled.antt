-- ===== src/Cluster/Settled.antt =====
-- reconcileNormal on a cluster whose resources are all recorded, and what it takes from the owner
-- cluster.
use capi_wx_one.Base.{ℕ, Bool, ◌≡◌, refl, true, false, arith, is_empty, if◌then◌else◌}
use capi_wx_one.Api.{WxOneCluster, CapiCluster}
use capi_wx_one.Clients.{WxOneClients}
use capi_wx_one.Effects.{
  Env, Trace, Exec, Event, pure, created_network, created_floating_ip, created_key,
  created_instance, created_floating_group,
}
use capi_wx_one.Effects.Ends.{
  Ends, IsClosed, Ends-bind, Ends-pure, Ends-if, Ends-call_bind, Ends-consult, Ends-weaken,
  Ends-trace,
}
use capi_wx_one.Cluster.Stages.{
  PatchHelper, subnet_id, floating_ip_id, ssh_key_id, project_id, new_helper, add_finalizer,
  ensure_project, ensure_network, ensure_floating_ip, ensure_ssh_key, ensure_ready, mark_ready,
  set_endpoints,
}
use capi_wx_one.Cluster.Keeps.{connect-Keeps}
use capi_wx_one.Cluster.Reconciler.{reconcile_normal}
use capi_wx_one.Cluster.Accounting.{count}

-- A request to make something at WX-ONE, accepted or not.
abbrev pub creation : Event → ℕ
creation (created_network input r) = 1
creation (created_floating_ip input r) = 1
creation (created_key input r) = 1
creation (created_instance input r) = 1
creation (created_floating_group input r) = 1
creation e = 0

-- The controller has recorded all that it makes, and the project.
pub record IsSettled (c : WxOneCluster) : Type 0 where
  pub has_project : is_empty (project_id c) ≡ false
  pub has_subnet : is_empty (subnet_id c) ≡ false
  pub has_address : is_empty (floating_ip_id c) ≡ false
  pub has_key : is_empty (ssh_key_id c) ≡ false

module _ (n : ℕ) where
  abbrev Idle : Trace → Type 0
  Idle t = count creation t ≡ n

  record Quiet (c : WxOneCluster) (t : Trace) : Type 0 where
    settled : IsSettled c
    idle : Idle t

  Quiet-IsClosed : (c : WxOneCluster) → IsClosed (Quiet c)
  Quiet-IsClosed c = record {
    read_closed = λ q t h. record { settled = h.settled; idle = omega (arith, h.idle) };
    posted_closed = λ url body t h. record { settled = h.settled; idle = omega (arith, h.idle) };
    asked_closed = λ q t h. record { settled = h.settled; idle = omega (arith, h.idle) };
  }

  -- A part whose test does not hold.
  skip :
      (b : Bool) (m : Exec WxOneCluster) (c : WxOneCluster) (t : Trace)
      → b ≡ false
      → Quiet c t
      → Ends Quiet Idle (if b then m else pure c) t
  skip true m c t e h = absurd cc
  skip false m c t e h = Ends-pure c h

  module _ (env : Env) where
    new_helper-Idle :
        (c : WxOneCluster) (t : Trace) → Idle t → Ends (λ _. Idle) Idle (new_helper env c) t
    unfolding new_helper
    new_helper-Idle c t h =
        Ends-bind (Ends-consult {Q = λ _. Idle} _ h (λ _ _. h)) λ _ t1 h1. Ends-pure _ h1

    add_finalizer-Quiet :
        (helper : PatchHelper) (c : WxOneCluster) (t : Trace)
        → IsSettled c
        → Idle t
        → Ends Quiet Idle (add_finalizer env helper c) t
    unfolding add_finalizer
    add_finalizer-Quiet helper c t s h =
        Ends-call_bind _ _
          (λ _ _. Ends-pure _ (record {
            settled = record {
              has_project = s.has_project;
              has_subnet = s.has_subnet;
              has_address = s.has_address;
              has_key = s.has_key;
            };
            idle = omega (arith, h);
          }))
          (λ _ _. omega (arith, h))

    mark_ready-Idle :
        (clients : WxOneClients) (helper : PatchHelper) (cluster : CapiCluster) (c : WxOneCluster)
        (t : Trace)
        → Idle t
        → Ends (λ _. Idle) Idle (mark_ready env clients helper cluster c) t
    unfolding mark_ready
    mark_ready-Idle clients helper cluster c t h =
        Ends-call_bind _ _ (λ _ _. Ends-pure _ (omega (arith, h))) (λ _ _. omega (arith, h))

    reconcile_normal-Idle_from :
        (c : WxOneCluster) (cluster : CapiCluster) (t : Trace)
        → IsSettled c
        → Idle t
        → Ends (λ _. Idle) Idle (reconcile_normal env c cluster) t
    unfolding reconcile_normal ensure_project ensure_network ensure_floating_ip ensure_ssh_key
        ensure_ready
    reconcile_normal-Idle_from c cluster t s h = Ends-bind (new_helper-Idle c t h) λ helper t1 h1.
        Ends-bind (add_finalizer-Quiet helper c t1 s h1) λ c1 t2 h2.
          Ends-bind
            (Ends-weaken (connect-Keeps env (Quiet c1) (Quiet-IsClosed c1) c1 t2 h2) (λ _ u p. p)
              (λ u p. p.idle))
            λ clients t3 h3. Ends-bind (skip _ _ c1 t3 h3.settled.has_project h3) λ c2 t4 h4.
              Ends-bind (skip _ _ c2 t4 h4.settled.has_subnet h4) λ c3 t5 h5.
                Ends-bind (skip _ _ c3 t5 h5.settled.has_address h5) λ c4 t6 h6.
                  Ends-bind (skip _ _ c4 t6 h6.settled.has_key h6) λ c5 t7 h7.
                    Ends-if (λ _. mark_ready-Idle clients helper cluster c5 t7 h7.idle)
                      (λ _. Ends-pure c5 h7.idle)

-- Let a cluster's project, subnet, floating IP and SSH key be recorded. Then reconcileNormal, in
-- any environment and however it ends, sends no request to make anything at WX-ONE.
pub reconcile_normal-idle :
    (env : Env) (c : WxOneCluster) (cluster : CapiCluster) (t : Trace)
    → IsSettled c
    → count creation (reconcile_normal env c cluster t).1 ≡ count creation t
reconcile_normal-idle env c cluster t settled =
    Ends-trace (λ _ u p. p) (λ u p. p)
      (reconcile_normal-Idle_from (count creation t) env c cluster t settled refl)

-- reconcileNormal takes nothing from the owner cluster: it behaves alike, calls and all, under any
-- two. The control plane endpoint that the owner specifies is never used.
pub reconcile_normal-owner :
    (env : Env) (c : WxOneCluster) (cluster cluster' : CapiCluster)
    → reconcile_normal env c cluster ≡ reconcile_normal env c cluster'
unfolding reconcile_normal ensure_ready mark_ready set_endpoints
reconcile_normal-owner env c cluster cluster' = refl
