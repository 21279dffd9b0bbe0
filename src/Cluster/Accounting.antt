-- ===== src/Cluster/Accounting.antt =====
-- What a trace says of a cluster: the object that the API server holds after it, and how many
-- resources were made and deleted, how many patches were lost.
pub mod Normal
pub mod Runs
pub mod Removal
pub mod Life
use capi_wx_one.Base.{
  ℕ, ◌+◌, ◌≤◌, String, Option, none, some, List, [], ◌∷◌, is_empty, if◌then◌else◌, ◌≡◌, arith,
  is_empty-empty,
}
use capi_wx_one.Api.{WxOneCluster}
use capi_wx_one.Graphql.Responses.{
  Answer, Payload, CreatedNetwork, CreatedSubnet, FloatingIp, CreatedKey,
}
use capi_wx_one.Effects.{
  Reply, done, failed, Event, Trace, patched_cluster, created_network, created_floating_ip,
  created_key, deleted_network, deleted_floating_ip, deleted_key,
}
use capi_wx_one.Cluster.Stages.{subnet_id, floating_ip_id, ssh_key_id}

-- To check the books after an event.
pub ruleset books = (arith, is_empty-empty)

-- The API server's object after one event: a patch that it took replaces it.
abbrev pub after_event : Event → WxOneCluster → WxOneCluster
after_event (patched_cluster before c (done _)) old = c
after_event _ old = old

-- The object that the next reconcile reads, if nobody else writes it, from the one at the start.
abbrev pub stored : WxOneCluster → Trace → WxOneCluster
stored start [] = start
stored start (e ∷ t) = after_event e (stored start t)

abbrev pub one_if_set : String → ℕ
one_if_set id = if is_empty id then 0 else 1

abbrev pub lost_patch : Event → ℕ
lost_patch (patched_cluster before c (failed e)) = 1
lost_patch _ = 0

-- The subnet's id that an answer brings, "" where it brings none.
abbrev pub subnet_of : List (Option CreatedSubnet) → String
subnet_of [] = ""
subnet_of (none ∷ r) = ""
subnet_of (some s ∷ r) = s.id

abbrev pub network_of : Option CreatedNetwork → String
network_of none = ""
network_of (some n) = subnet_of n.subnets

abbrev pub address_of : Option FloatingIp → String
address_of none = ""
address_of (some a) = a.id

abbrev pub key_of : Option CreatedKey → String
key_of none = ""
key_of (some k) = k.id

abbrev pub answered : {M : Type 0} → (M → String) → Reply (Answer M) → String
answered f (failed e) = ""
answered f (done none) = ""
answered f (done (some p)) = f p.msg

-- 1 for a resource that WX-ONE made and answered with an id.
abbrev pub network_made : Event → ℕ
network_made (created_network input r) = one_if_set (answered network_of r)
network_made _ = 0

abbrev pub floating_ip_made : Event → ℕ
floating_ip_made (created_floating_ip input r) = one_if_set (answered address_of r)
floating_ip_made _ = 0

abbrev pub key_made : Event → ℕ
key_made (created_key input r) = one_if_set (answered key_of r)
key_made _ = 0

abbrev pub count : (Event → ℕ) → Trace → ℕ
count weight [] = 0
count weight (e ∷ t) = weight e + count weight t

-- Of each kind, WX-ONE has made no more than the object records and lost patches explain.
pub record IsBalanced (start : WxOneCluster) (t : Trace) : Type 0 where
  pub networks : count network_made t ≤ count lost_patch t + one_if_set (subnet_id (stored start t))
  pub floating_ips :
      count floating_ip_made t ≤ count lost_patch t + one_if_set (floating_ip_id (stored start t))
  pub keys : count key_made t ≤ count lost_patch t + one_if_set (ssh_key_id (stored start t))

-- 1 for a deletion that WX-ONE answered.
abbrev pub network_deleted : Event → ℕ
network_deleted (deleted_network input (done a)) = 1
network_deleted _ = 0

abbrev pub floating_ip_deleted : Event → ℕ
floating_ip_deleted (deleted_floating_ip input (done a)) = 1
floating_ip_deleted _ = 0

abbrev pub key_deleted : Event → ℕ
key_deleted (deleted_key input (done a)) = 1
key_deleted _ = 0

-- Numbers of the three kinds.
pub record Numbers : Type 0 where
  pub networks : ℕ
  pub floating_ips : ℕ
  pub keys : ℕ

abbrev pub deletions : Trace → Numbers
deletions t = record {
  networks = count network_deleted t;
  floating_ips = count floating_ip_deleted t;
  keys = count key_deleted t;
}

abbrev pub records : WxOneCluster → Numbers
records c = record {
  networks = one_if_set (subnet_id c);
  floating_ips = one_if_set (floating_ip_id c);
  keys = one_if_set (ssh_key_id c);
}

-- Of each kind, no more was made than an allowance, lost patches and the object explain.
pub record Explains (allowance recorded : Numbers) (t : Trace) : Type 0 where
  pub networks : count network_made t ≤ allowance.networks + count lost_patch t + recorded.networks
  pub floating_ips :
      count floating_ip_made t ≤ allowance.floating_ips + count lost_patch t + recorded.floating_ips
  pub keys : count key_made t ≤ allowance.keys + count lost_patch t + recorded.keys

-- The allowance of a trace: what was deleted.
abbrev pub IsMatched : WxOneCluster → Trace → Type 0
IsMatched start t = Explains (deletions t) (records (stored start t)) t

-- The same with an allowance that later deletions do not use up.
pub record IsAccounted (allowance : Numbers) (start : WxOneCluster) (t : Trace) : Type 0 where
  pub explained : Explains allowance (records (stored start t)) t
  pub paid_networks : allowance.networks ≤ count network_deleted t
  pub paid_floating_ips : allowance.floating_ips ≤ count floating_ip_deleted t
  pub paid_keys : allowance.keys ≤ count key_deleted t

-- The object in memory has an id exactly where the stored one has.
pub record SameIds (start c : WxOneCluster) (t : Trace) : Type 0 where
  pub same_subnet : is_empty (subnet_id c) ≡ is_empty (subnet_id (stored start t))
  pub same_address : is_empty (floating_ip_id c) ≡ is_empty (floating_ip_id (stored start t))
  pub same_key : is_empty (ssh_key_id c) ≡ is_empty (ssh_key_id (stored start t))

pub record Agrees (allowance : Numbers) (start c : WxOneCluster) (t : Trace) : Type 0 where
  pub same : SameIds start c t
  pub balanced : IsAccounted allowance start t
