-- ===== src/Machine/Accounting/Runs.antt =====
-- Any number of reconciles of one machine, each from the object that the one before it left.
use capi_wx_one.Base.{List, [], ◌∷◌, arith, refl}
use capi_wx_one.Api.{WxOneCluster, WxOneMachine, CapiCluster, CapiMachine}
use capi_wx_one.Effects.{Env, Trace}
use capi_wx_one.Effects.Ends.{Ends-trace}
use capi_wx_one.Machine.Reconciler.{reconcile_normal}
use capi_wx_one.Machine.Accounting.{IsBalanced, IsAccounted, Numbers, stored}
use capi_wx_one.Machine.Accounting.Normal.{reconcile_normal-Agrees}

-- What a call of the reconciler meets: the environment, and the three objects that it reads
-- beside the machine.
pub record Call : Type 0 where
  pub env : Env
  pub cluster : CapiCluster
  pub wx : WxOneCluster
  pub machine : CapiMachine

abbrev pub retries : WxOneMachine → List Call → Trace → Trace
retries start [] t = t
retries start (r ∷ rest) t =
    retries start rest (reconcile_normal r.env r.cluster r.wx r.machine (stored start t) t).1

-- One reconcile from the stored object keeps the books under any allowance.
pub reconcile_normal-IsAccounted :
    (r : Call) (allowance : Numbers) (start : WxOneMachine) (t : Trace)
    → IsAccounted allowance start t
    → IsAccounted allowance start
        (reconcile_normal r.env r.cluster r.wx r.machine (stored start t) t).1
reconcile_normal-IsAccounted r allowance start t h =
    Ends-trace (λ _ u p. p.balanced) (λ u p. p)
      (reconcile_normal-Agrees r.env allowance start r.cluster r.wx r.machine (stored start t) t
        (record { same = record { same_instance = refl; same_attachement = refl }; balanced = h }))

abbrev nothing : Numbers
nothing = record { instances = 0; attachements = 0 }

retries-IsAccounted :
    (start : WxOneMachine) (runs : List Call) (t : Trace)
    → IsAccounted nothing start t
    → IsAccounted nothing start (retries start runs t)
retries-IsAccounted start [] t h = h
retries-IsAccounted start (r ∷ rest) t h =
    retries-IsAccounted start rest _ (reconcile_normal-IsAccounted r nothing start t h)

IsAccounted-IsBalanced :
    (start : WxOneMachine) (t : Trace) → IsAccounted nothing start t → IsBalanced start t
IsAccounted-IsBalanced start t h = ground arith

-- Over any number of retries of the machine's reconcileNormal from a fresh trace, in any
-- environments, each retry starting from the object that the last accepted patch stored: the
-- instances that WX-ONE made and answered with an id and no null address number at most the lost
-- patches, and one more only if the stored object records an instance; so too the floating IP
-- attachements that it answered with an id.
pub machine_retries-IsBalanced :
    (start : WxOneMachine) (runs : List Call) → IsBalanced start (retries start runs [])
machine_retries-IsBalanced start runs =
    IsAccounted-IsBalanced start _ (retries-IsAccounted start runs [] (ground arith))
