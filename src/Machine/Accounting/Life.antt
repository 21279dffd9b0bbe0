-- ===== src/Machine/Accounting/Life.antt =====
-- The books over any sequence of reconciles of one machine, deletions among them.
use capi_wx_one.Base.{List, [], ◌∷◌, arith}
use capi_wx_one.Api.{WxOneMachine}
use capi_wx_one.Effects.{Trace}
use capi_wx_one.Machine.Identity.{Step, normal, removal, step, run}
use capi_wx_one.Machine.Accounting.{IsMatched, IsAccounted, deletions, stored}
use capi_wx_one.Machine.Accounting.Runs.{reconcile_normal-IsAccounted}
use capi_wx_one.Machine.Accounting.Removal.{reconcile_delete-IsMatched}

open_allowance :
    (start : WxOneMachine) (t : Trace) → IsMatched start t → IsAccounted (deletions t) start t
open_allowance start t h = ground arith

close_allowance :
    (start : WxOneMachine) (t u : Trace) → IsAccounted (deletions t) start u → IsMatched start u
close_allowance start t u h = ground arith

step-IsMatched :
    (s : Step) (start : WxOneMachine) (t : Trace)
    → IsMatched start t
    → IsMatched start (step s (stored start t) t)
step-IsMatched (normal r) start t h =
    close_allowance start t _
      (reconcile_normal-IsAccounted r (deletions t) start t (open_allowance start t h))
step-IsMatched (removal env wx) start t h = reconcile_delete-IsMatched env wx start t h

run-IsMatched_from :
    (start : WxOneMachine) (steps : List Step) (t : Trace)
    → IsMatched start t
    → IsMatched start (run start steps t)
run-IsMatched_from start [] t h = h
run-IsMatched_from start (s ∷ rest) t h =
    run-IsMatched_from start rest _ (step-IsMatched s start t h)

-- Over any sequence of reconcileNormal and reconcileDelete of a machine from a fresh trace, in any
-- environments and however each ends, each starting from the object that the last accepted patch
-- stored: the instances that WX-ONE made and answered with an id and no null address number at
-- most the answered deletions of instances, the lost patches, and one more if the stored object
-- records an instance; the floating IP attachements that it answered with an id number at most the
-- requests to detach, answered or not, the lost patches, and one more if the stored object records
-- an attachement.
pub machine_run-IsMatched :
    (start : WxOneMachine) (steps : List Step) → IsMatched start (run start steps [])
machine_run-IsMatched start steps = run-IsMatched_from start steps [] (ground arith)
