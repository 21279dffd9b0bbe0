-- ===== src/Machine/Teardown/Hook.antt =====
-- The part of reconcileDelete under the hook.
use capi_wx_one.Base.{ℕ, false, ◌≡◌, refl, ap, arith, is_empty-empty}
use capi_wx_one.Api.{WxOneCluster, WxOneMachine, CapiMachine}
use capi_wx_one.Clients.{WxOneClients}
use capi_wx_one.Graphql.Operations
use capi_wx_one.Effects.{Env, Trace}
use capi_wx_one.Effects.Ends.{
  Ends, Ends-bind, Ends-pure, Ends-if, Ends-deref_bind, Ends-call_bind, Ends-lift, Ends-attempt,
}
use capi_wx_one.Effects.History.{now}
use capi_wx_one.Machine.Stages.{PatchHelper, instance_id}
use capi_wx_one.Machine.Removal.{
  remove_hook, ensure_withdrawn, withdraw_route, forget_attachement, detach, is_attached,
}
use capi_wx_one.Machine.Teardown.{Held, Fresh, Waiting, HookRemoved, Fresh-Held}

module _ (env : Env) (start old : WxOneMachine) (n : ℕ) (machine : CapiMachine)
    (clients : WxOneClients) (helper : PatchHelper) (wx : WxOneCluster) where
  detach_request-Fresh :
      (t : Trace)
      → Fresh start old n t
      → Ends
          (λ _. Fresh start old n)
          (Held start old)
          (Operations.delete_floating_group_by_floating_ip_id_and_instance_id env
            clients.graphql_client wx.status.project.resource_id wx.status.floating_ip.resource_id
            (instance_id old))
          t
  unfolding Operations.delete_floating_group_by_floating_ip_id_and_instance_id
  detach_request-Fresh t h =
      Ends-deref_bind (λ _. Fresh-Held start old n t h)
        λ c e.
          Ends-attempt _ _ (record { is_old = h.is_old; no_request = omega (arith, h.no_request) })

  -- Clearing the attachement.
  forget_attachement-Waiting :
      (t : Trace)
      → Fresh start old n t
      → Ends
          (Waiting start old env machine n)
          (Held start old)
          (forget_attachement env clients helper wx old)
          t
  unfolding forget_attachement
  forget_attachement-Waiting t h =
      Ends-call_bind _ _
        (λ _ _. Ends-pure _ (record {
          steady = record {
            same_finalizers = refl;
            held = refl;
            same_instance = refl;
            kept_instance = refl;
          };
          no_request = omega (arith, h.no_request);
          withdrawn = ground (arith, is_empty-empty);
        }))
        (λ _ _. Fresh-Held start old n t h)

  withdraw_route-Waiting :
      (t : Trace)
      → Fresh start old n t
      → Ends
          (Waiting start old env machine n)
          (Held start old)
          (withdraw_route env clients helper wx old)
          t
  unfolding withdraw_route Operations.delete_floating_group_by_floating_ip_id_and_instance_id
  withdraw_route-Waiting t h = Ends-bind (detach_request-Fresh t h) λ r t1 h1.
      Ends-bind (Ends-lift {Q = λ _. Fresh start old n} (Fresh-Held start old n t1 h1) (λ _ _. h1))
        λ answer t2 h2. forget_attachement-Waiting t2 h2

  pub detach-Waiting :
      (t : Trace)
      → Fresh start old n t
      → Ends (Waiting start old env machine n) (Held start old) (detach env clients helper wx old) t
  unfolding detach
  detach-Waiting t h =
      Ends-bind (detach_request-Fresh t h) λ r t1 h1. forget_attachement-Waiting t1 h1

  -- Where there is nothing to withdraw.
  pub untouched-Waiting :
      (t : Trace)
      → Fresh start old n t
      → is_attached env machine old ≡ false
      → Waiting start old env machine n old t
  untouched-Waiting t h e = record {
    steady = record {
      same_finalizers = refl;
      held = Fresh-Held start old n t h;
      same_instance = refl;
      kept_instance = ap instance_id h.is_old;
    };
    no_request = h.no_request;
    withdrawn = e;
  }

  pub remove_hook-HookRemoved :
      (t : Trace)
      → Fresh start old n t
      → Ends
          (λ s. HookRemoved start old env machine n s.0 s.1)
          (Held start old)
          (remove_hook env clients helper wx machine old)
          t
  unfolding remove_hook ensure_withdrawn
  remove_hook-HookRemoved t h =
      Ends-bind
        (Ends-if {b = is_attached env machine old} (λ _. withdraw_route-Waiting t h)
          (λ e. Ends-pure old (untouched-Waiting t h e)))
        λ m1 t1 h1.
          Ends-call_bind _ _
            (λ _ _. Ends-pure _ (record {
              waiting = record {
                steady = record {
                  same_finalizers = h1.steady.same_finalizers;
                  held = h1.steady.held;
                  same_instance = h1.steady.same_instance;
                  kept_instance = h1.steady.kept_instance;
                };
                no_request = omega (arith, h1.no_request);
                withdrawn = h1.withdrawn;
              };
              removed = now refl;
              no_requeue = refl;
            }))
            (λ _ _. h1.steady.held)
