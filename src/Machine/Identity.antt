-- ===== src/Machine/Identity.antt =====
-- Any sequence of reconciles of one machine, deletions among them, and two properties of what the
-- controller stores: the provider id, and what the webhook says.
use capi_wx_one.Base.{
  ⊤, String, ◌<>◌, true, Option, some, List, [], ◌∷◌, ◌≡◌, refl, is_empty, ◌∙◌, sym, ◌⊎◌, inl, inr,
  false,
}
use capi_wx_one.Api.{WxOneCluster, WxOneMachine}
use capi_wx_one.Effects.{Env, Trace, Event, done, failed, patched_machine}
use capi_wx_one.Effects.History.{Happened, later}
use capi_wx_one.Effects.Ends.{Ends-trace}
use capi_wx_one.Machine.Stages.{instance_id}
use capi_wx_one.Machine.Reconciler.{reconcile_normal}
use capi_wx_one.Machine.Removal.{reconcile_delete}
use capi_wx_one.Machine.Accounting.{stored, after_event}
use capi_wx_one.Machine.Accounting.Runs.{Call}
use capi_wx_one.Machine.Patches.{IsFine, AllFine, IsKept}
use capi_wx_one.Machine.Walk.{IsRunning}
use capi_wx_one.Machine.Patches.Normal.{reconcile_normal-Good}
use capi_wx_one.Machine.Patches.Deletion.{reconcile_delete-Good}
use capi_wx_one.Webhook.Validators.{accept, update_machine}
use capi_wx_one.Webhook.Immutable.{SameMachine, update_machine-SameMachine}

-- One reconcile, of a machine that is not deleted or of one that is, in some environment.
pub data Step : Type 0 where
  normal : Call → Step
  removal : Env → WxOneCluster → Step

abbrev pub step : Step → WxOneMachine → Trace → Trace
step (normal r) m t = (reconcile_normal r.env r.cluster r.wx r.machine m t).1
step (removal env wx) m t = (reconcile_delete env wx m t).1

-- Each reconcile starts from the object that the last accepted patch stored.
abbrev pub run : WxOneMachine → List Step → Trace → Trace
run start [] t = t
run start (s ∷ rest) t = run start rest (step s (stored start t) t)

module _ (P : WxOneMachine → Trace → Type 0) (kept : IsKept P) (start : WxOneMachine)
    (first : P start []) where
  after_event-P :
      (e : Event) (m : WxOneMachine) (t : Trace)
      → IsFine P e t
      → P m t
      → P (after_event e m) (e ∷ t)
  after_event-P (patched_machine before m' (done u)) m t is_fine p = kept.later _ is_fine
  after_event-P (patched_machine before m' (failed e)) m t is_fine p = kept.later _ p
  after_event-P e m t is_fine p = kept.later _ p

  stored-P : (t : Trace) → AllFine P t → P (stored start t) t
  stored-P [] h = first
  stored-P (e ∷ t) h = after_event-P e (stored start t) t h.0 (stored-P t h.1)

  step-AllFine : (s : Step) (t : Trace) → AllFine P t → AllFine P (step s (stored start t) t)
  step-AllFine (normal r) t h =
      Ends-trace (λ _ u p. p.sent) (λ u p. p)
        (reconcile_normal-Good P kept r.env r.cluster r.wx r.machine (stored start t) t
          (record { memory = stored-P t h; sent = h }))
  step-AllFine (removal env wx) t h =
      Ends-trace (λ _ u p. p.sent) (λ u p. p)
        (reconcile_delete-Good P kept env wx (stored start t) t
          (record { memory = stored-P t h; sent = h }))

  run-AllFine : (l : List Step) (t : Trace) → AllFine P t → AllFine P (run start l t)
  run-AllFine [] t h = h
  run-AllFine (s ∷ rest) t h = run-AllFine rest _ (step-AllFine s t h)

-- A machine with an instance carries the instance's id in its provider id.
abbrev pub HasProviderId : WxOneMachine → Type 0
HasProviderId m =
    (is_empty (instance_id m) ≡ true) ⊎ (m.spec.provider_id ≡ some ("wxone://" <> instance_id m))

-- A machine is not ready, or WX-ONE has answered that an instance runs.
abbrev pub IsEarned : WxOneMachine → Trace → Type 0
IsEarned m t = (m.status.ready ≡ false) ⊎ Happened IsRunning t

IsEarned-IsKept : IsKept IsEarned
IsEarned-IsKept = record {
  later = λ e h. later h;
  finalizers = λ m fs t h. h;
  flavor = λ m id t h. h;
  image = λ m id t h. h;
  instance_made = λ m id l t h. h;
  instance_dropped = λ m t h. h;
  attachement = λ m id t h. h;
  ready = λ m t running h. inr running;
}

-- After any sequence of reconciles and deletions of a machine, in any environments, that began
-- with a machine that is not ready: the stored object is not ready, or one of WX-ONE's answers was
-- that an instance is RUNNING.
pub run-IsEarned :
    (start : WxOneMachine) (l : List Step)
    → start.status.ready ≡ false
    → IsEarned (stored start (run start l [])) (run start l [])
run-IsEarned start l not_ready =
    stored-P IsEarned IsEarned-IsKept start (inl not_ready) (run start l [])
      (run-AllFine IsEarned IsEarned-IsKept start (inl not_ready) l [] tt)

-- The handler admits this event as an update of the object that the API server holds.
abbrev pub IsAdmitted : WxOneMachine → Event → Type 0
IsAdmitted held (patched_machine before m r) = update_machine held m ≡ accept
IsAdmitted held e = ⊤

abbrev pub AllAdmitted : WxOneMachine → Trace → Type 0
AllAdmitted start [] = ⊤
AllAdmitted start (e ∷ t) = IsAdmitted (stored start t) e × AllAdmitted start t

module _ (start : WxOneMachine) where
  abbrev SameSpec : WxOneMachine → Type 0
  SameSpec m = SameMachine m.spec start.spec

  again :
      (m : WxOneMachine)
      → SameSpec m
      → (p : Option String) → SameMachine (record m.spec { provider_id = p }) start.spec
  again m h p = record { same_flavor = h.same_flavor; same_image = h.same_image }

  SameSpec-IsKept : IsKept (λ m _. SameSpec m)
  SameSpec-IsKept = record {
    later = λ e h. h;
    finalizers = λ m fs t h. h;
    flavor = λ m id t h. h;
    image = λ m id t h. h;
    instance_made = λ m id l t h. again m h _;
    instance_dropped = λ m t h. h;
    attachement = λ m id t h. h;
    ready = λ m t running h. h;
  }

  SameSpec-start : SameSpec start
  SameSpec-start = record { same_flavor = refl; same_image = refl }

  IsFine-IsAdmitted :
      (e : Event) (t : Trace) (held : WxOneMachine)
      → IsFine (λ m _. SameSpec m) e t
      → SameSpec held
      → IsAdmitted held e
  IsFine-IsAdmitted (patched_machine before m r) t held fine h =
      (update_machine-SameMachine held m).1 (record {
        same_flavor = fine.same_flavor ∙ sym h.same_flavor;
        same_image = fine.same_image ∙ sym h.same_image;
      })
  IsFine-IsAdmitted e t held fine h = tt

  AllFine-AllAdmitted : (t : Trace) → AllFine (λ m _. SameSpec m) t → AllAdmitted start t
  AllFine-AllAdmitted [] h = tt
  AllFine-AllAdmitted (e ∷ t) h = (
    IsFine-IsAdmitted e t (stored start t) h.0
        (stored-P (λ m _. SameSpec m) SameSpec-IsKept start SameSpec-start t h.1),
    AllFine-AllAdmitted t h.1,
  )

-- In any sequence of reconciles and deletions of a machine, in any environments, the validator of
-- updates admits every patch of the controller, each against the object that the API server held.
pub run-AllAdmitted : (start : WxOneMachine) (l : List Step) → AllAdmitted start (run start l [])
run-AllAdmitted start l = AllFine-AllAdmitted start (run start l []) (
    run-AllFine (λ m _. SameSpec start m) (SameSpec-IsKept start) start (SameSpec-start start) l []
      tt)
