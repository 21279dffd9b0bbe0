-- ===== src/Machine/Accounting/Setup.antt =====
-- The books at the hook and the finalizer.
use capi_wx_one.Api.{WxOneMachine, CapiMachine}
use capi_wx_one.Effects.{Env, Trace}
use capi_wx_one.Effects.Ends.{
  Ends, IsClosed, Ends-bind, Ends-pure, Ends-if, Ends-call, Ends-call_bind, Ends-consult,
}
use capi_wx_one.Machine.Stages.{
  PatchHelper, new_helper, ensure_hook, has_annotation, update, add_finalizer,
}
use capi_wx_one.Cluster.Accounting.{books}
use capi_wx_one.Machine.Accounting.{Numbers, IsAccounted, Agrees}

module _ (env : Env) (allowance : Numbers) (start : WxOneMachine) where
  pub Agrees-IsClosed : (m : WxOneMachine) → IsClosed (Agrees allowance start m)
  Agrees-IsClosed m = record {
    read_closed = λ q t h. ground books;
    posted_closed = λ url body t h. ground books;
    asked_closed = λ q t h. ground books;
  }

  update-Agrees :
      (m : WxOneMachine) (machine : CapiMachine) (t : Trace)
      → Agrees allowance start m t
      → Ends (λ _. Agrees allowance start m) (IsAccounted allowance start) (update env machine) t
  unfolding update
  update-Agrees m machine t h =
      Ends-call _ _ (λ _ e. rw e (ground books)) (λ _ e. rw e (ground books))

  pub ensure_hook-Agrees :
      (m : WxOneMachine) (machine : CapiMachine) (t : Trace)
      → Agrees allowance start m t
      → Ends
          (λ _. Agrees allowance start m)
          (IsAccounted allowance start)
          (ensure_hook env machine)
          t
  unfolding ensure_hook
  ensure_hook-Agrees m machine t h =
      Ends-if {b = has_annotation machine.annotations} (λ _. Ends-pure machine h)
        (λ _. update-Agrees m _ t h)

  pub new_helper-Agrees :
      (m : WxOneMachine) (t : Trace)
      → Agrees allowance start m t
      → Ends (λ _. Agrees allowance start m) (IsAccounted allowance start) (new_helper env m) t
  unfolding new_helper
  new_helper-Agrees m t h =
      Ends-bind (Ends-consult {Q = λ _. Agrees allowance start m} _ h.balanced (λ _ _. h))
        λ _ t1 h1. Ends-pure _ h1

  pub add_finalizer-Agrees :
      (helper : PatchHelper) (m : WxOneMachine) (t : Trace)
      → Agrees allowance start m t
      → Ends (Agrees allowance start) (IsAccounted allowance start) (add_finalizer env helper m) t
  unfolding add_finalizer
  add_finalizer-Agrees helper m t h =
      Ends-call_bind _ _ (λ _ _. Ends-pure _ (ground books)) (λ x _. ground books)
