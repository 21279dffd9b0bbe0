-- ===== src/Machine/Accounting.antt =====
-- What a trace says of a machine: the object that the API server holds after it, how many instances
-- and attachements were made and deleted, and how many patches were lost.
pub mod Setup
pub mod Normal
pub mod Runs
pub mod Removal
pub mod Life
use capi_wx_one.Base.{
  ℕ, ◌+◌, ◌≤◌, String, Bool, true, false, ◌||◌, Option, none, some, List, [], ◌∷◌, is_empty,
  is_none, if◌then◌else◌, ◌≡◌,
}
use capi_wx_one.Api.{WxOneMachine}
use capi_wx_one.Graphql.Responses.{CreatedInstance, FloatingGroupMember}
use capi_wx_one.Effects.{
  Reply, done, failed, Event, Trace, patched_machine, created_instance, created_floating_group,
  deleted_instance, deleted_floating_group,
}
use capi_wx_one.Cluster.Accounting.{count, one_if_set, answered}
use capi_wx_one.Machine.Stages.{instance_id, attachement_id}

-- The API server's object after one event: a patch that it took replaces it.
abbrev pub after_event : Event → WxOneMachine → WxOneMachine
after_event (patched_machine before m (done _)) old = m
after_event _ old = old

abbrev pub stored : WxOneMachine → Trace → WxOneMachine
stored start [] = start
stored start (e ∷ t) = after_event e (stored start t)

abbrev pub lost_patch : Event → ℕ
lost_patch (patched_machine before m (failed e)) = 1
lost_patch _ = 0

-- A nil entry among the addresses: the controller panics at it, before any patch.
abbrev pub has_nil : List (Option String) → Bool
has_nil [] = false
has_nil (a ∷ r) = is_none a || has_nil r

abbrev pub instance_of : Option CreatedInstance → String
instance_of none = ""
instance_of (some i) = if has_nil i.addresses then "" else i.id

abbrev pub member_of : List (Option FloatingGroupMember) → String
member_of [] = ""
member_of (none ∷ r) = ""
member_of (some m ∷ r) = m.id

-- 1 for an instance that WX-ONE made and answered with an id and no null address.
abbrev pub instance_made : Event → ℕ
instance_made (created_instance input r) = one_if_set (answered instance_of r)
instance_made _ = 0

abbrev pub attachement_made : Event → ℕ
attachement_made (created_floating_group input r) = one_if_set (answered member_of r)
attachement_made _ = 0

-- WX-ONE has made no more than the object records and lost patches explain.
pub record IsBalanced (start : WxOneMachine) (t : Trace) : Type 0 where
  pub instances :
      count instance_made t ≤ count lost_patch t + one_if_set (instance_id (stored start t))
  pub attachements :
      count attachement_made t ≤ count lost_patch t + one_if_set (attachement_id (stored start t))

-- 1 for an instance whose deletion WX-ONE answered.
abbrev pub instance_deleted : Event → ℕ
instance_deleted (deleted_instance input (done a)) = 1
instance_deleted _ = 0

-- 1 for a request to detach, answered or not: without the hook, its error is only logged.
abbrev pub detach_asked : Event → ℕ
detach_asked (deleted_floating_group input r) = 1
detach_asked _ = 0

-- Numbers of the two kinds.
pub record Numbers : Type 0 where
  pub instances : ℕ
  pub attachements : ℕ

abbrev pub deletions : Trace → Numbers
deletions t = record { instances = count instance_deleted t; attachements = count detach_asked t }

abbrev pub records : WxOneMachine → Numbers
records m = record {
  instances = one_if_set (instance_id m);
  attachements = one_if_set (attachement_id m);
}

-- Of each kind, no more was made than an allowance, lost patches and the object explain.
pub record Explains (allowance recorded : Numbers) (t : Trace) : Type 0 where
  pub instances :
      count instance_made t ≤ allowance.instances + count lost_patch t + recorded.instances
  pub attachements :
      count attachement_made t ≤ allowance.attachements + count lost_patch t + recorded.attachements

-- The allowance of a trace: what was deleted and detached.
abbrev pub IsMatched : WxOneMachine → Trace → Type 0
IsMatched start t = Explains (deletions t) (records (stored start t)) t

-- The same with an allowance that later deletions do not use up.
pub record IsAccounted (allowance : Numbers) (start : WxOneMachine) (t : Trace) : Type 0 where
  pub explained : Explains allowance (records (stored start t)) t
  pub paid_instances : allowance.instances ≤ count instance_deleted t
  pub paid_attachements : allowance.attachements ≤ count detach_asked t

-- The object in memory has an id exactly where the stored one has.
pub record SameIds (start m : WxOneMachine) (t : Trace) : Type 0 where
  pub same_instance : is_empty (instance_id m) ≡ is_empty (instance_id (stored start t))
  pub same_attachement : is_empty (attachement_id m) ≡ is_empty (attachement_id (stored start t))

pub record Agrees (allowance : Numbers) (start m : WxOneMachine) (t : Trace) : Type 0 where
  pub same : SameIds start m t
  pub balanced : IsAccounted allowance start t
