-- ===== src/Tests/Machine.antt =====
-- Runs of the WXOneMachine controller, and each theorem about it at a concrete input.
use capi_wx_one.Base.{
  false, Option, none, some, List, [], ◌∷◌, ◌≡◌, refl, is_empty, Bool, true, String, lookup,
}
use capi_wx_one.Api.{WxOneMachine}
use capi_wx_one.Effects.{◌>>=◌, ok}
use capi_wx_one.Effects.Ends.{Ends}
use capi_wx_one.Graphql.Responses.{ListedImage}
use capi_wx_one.Machine.Stages
use capi_wx_one.Machine.Stages.{image_id, instance_id, scan_images, image_or_error}
use capi_wx_one.Machine.Removal.{reconcile_delete}
use capi_wx_one.Machine.Accounting.{IsBalanced, stored}
use capi_wx_one.Machine.Accounting.Runs.{Call, retries, machine_retries-IsBalanced}
use capi_wx_one.Machine.Teardown.{Outcomes, Held}
use capi_wx_one.Machine.Teardown.Run.{reconcile_delete-Outcomes}
use capi_wx_one.Machine.Requests.{Requests, wx_one_cluster_to_wx_one_machines-Requests}
use capi_wx_one.Machine.Images.{last_named, scan_images-last_named}
use capi_wx_one.Machine.Identity.{
  Step, normal, removal, run, IsEarned, run-IsEarned, AllAdmitted, run-AllAdmitted,
}
use capi_wx_one.Clients.{WxOneClients}
use capi_wx_one.Machine.Reconciler.{reconcile_normal, wx_one_cluster_to_wx_one_machines}
use capi_wx_one.Api.{NamespacedName}
use capi_wx_one.Machine.Finishes.{Removes}
use capi_wx_one.Machine.Gone.{Gone, Finds, two_removals-Gone}
use capi_wx_one.Cluster.Progress.{Serves}
use capi_wx_one.Api.{CapiMachine}
use capi_wx_one.Machine.Stages.{has_annotation}
use capi_wx_one.Base.{subst}
use capi_wx_one.Machine.Progress.{Provides}
use capi_wx_one.Machine.Progress.Normal.{machine_normal-returns}
use capi_wx_one.Machine.Stages.{user_data}
use capi_wx_one.CloudInit.Text.{after_newline}
use capi_wx_one.CloudInit.Convert.{add_persistent_lo_address_to_cloud_init, cloud_init_yaml_to_json}
use capi_wx_one.Tests.Cluster.{serves, lets_in, adds_finalizer}
use capi_wx_one.Machine.Accounting.{IsMatched}
use capi_wx_one.Machine.Accounting.Life.{machine_run-IsMatched}
use capi_wx_one.Machine.Guarded.{AllGuarded}
use capi_wx_one.Machine.Guarded.Normal.{machine_normal-AllGuarded}
use capi_wx_one.Tests.{
  new_machine, owner_machine, hooked_machine, owner_cluster, full_cluster, env, unhooked_env,
  reference,
}

abbrev machine_call : Call
machine_call = record {
  env = env;
  cluster = owner_cluster;
  wx = full_cluster;
  machine = owner_machine;
}

-- The machine with its instance and its attachement.
abbrev full_machine : WxOneMachine
full_machine = record new_machine {
  spec = record new_machine.spec { provider_id = some "wxone://vm1" };
  status = record new_machine.status {
    instance_ref = reference "vm1";
    floating_ip_attachement = reference "g1";
  };
}

machine_retries-IsBalanced_example :
    IsBalanced new_machine (retries new_machine (machine_call ∷ machine_call ∷ []) [])
machine_retries-IsBalanced_example =
    machine_retries-IsBalanced new_machine (machine_call ∷ machine_call ∷ [])

reconcile_delete-Outcomes_example :
    Ends
      (Outcomes full_machine full_machine env full_cluster 0)
      (Held full_machine full_machine)
      (reconcile_delete env full_cluster full_machine)
      []
reconcile_delete-Outcomes_example =
    reconcile_delete-Outcomes env full_cluster full_machine full_machine [] refl

-- A reconcile, then a deletion under the hook, then one without it.
abbrev life : List Step
life = normal machine_call ∷ removal env full_cluster ∷ removal unhooked_env full_cluster ∷ []

run-IsEarned_example :
    IsEarned (stored new_machine (run new_machine life [])) (run new_machine life [])
run-IsEarned_example = run-IsEarned new_machine life refl

run-AllAdmitted_example : AllAdmitted new_machine (run new_machine life [])
run-AllAdmitted_example = run-AllAdmitted new_machine life

abbrev images : List (Option ListedImage)
images =
    some (record { id = "i1"; name = some "ubuntu" })
    ∷ some (record { id = "i2"; name = some "debian" })
    ∷ some (record { id = "i3"; name = some "ubuntu" })
    ∷ []

abbrev some_clients : WxOneClients
some_clients = record { graphql_client = none }

abbrev helper : Stages.PatchHelper
helper = record { before = new_machine }

scan_images-last_named_example :
    Ends
      (λ m' _. last_named "ubuntu" images none ≡ some (image_id m'))
      (λ _. Unit {0})
      (scan_images env some_clients helper full_cluster images (false, new_machine)
        >>= image_or_error env some_clients helper full_cluster)
      []
scan_images-last_named_example =
    scan_images-last_named env some_clients helper full_cluster images new_machine []

last_of_three : last_named "ubuntu" images none ≡ some "i3"
last_of_three = refl

removes : Removes env
removes = record {
  serves = serves;
  helps = λ t m. refl;
  patches = λ t before m. refl;
  updates = λ t m. (_, refl);
  owner = λ t meta. (_, refl);
  instance_deleted = λ t c input. (_, refl);
  detached = λ t c input. (_, refl);
}

unhooked_login : Serves unhooked_env
unhooked_login = record {
  lets_in = lets_in unhooked_env.kube;
  helps = λ t c. refl;
  patches = λ t before c. refl;
  has_secret = λ t key. (_, refl);
}

unhooked_calls : Removes unhooked_env
unhooked_calls = record {
  serves = unhooked_login;
  helps = λ t m. refl;
  patches = λ t before m. refl;
  updates = λ t m. (_, refl);
  owner = λ t meta. (_, refl);
  instance_deleted = λ t c input. (_, refl);
  detached = λ t c input. (_, refl);
}

hook_there : Finds true env
unfolding lookup
hook_there t meta machine e =
    let same : hooked_machine ≡ machine = cc e in
    subst (λ (m : CapiMachine). has_annotation m.annotations ≡ true) same refl

hook_missing : Finds false unhooked_env
unfolding lookup
hook_missing t meta machine e =
    let same : owner_machine ≡ machine = cc e in
    subst (λ (m : CapiMachine). has_annotation m.annotations ≡ false) same refl

two_removals-Gone_example :
    Gone full_machine full_machine unhooked_env full_cluster
      (run full_machine (removal env full_cluster ∷ removal unhooked_env full_cluster ∷ []) [])
two_removals-Gone_example =
    two_removals-Gone env unhooked_env full_cluster full_machine [] removes unhooked_calls
      hook_there hook_missing

converts :
    (control_plane : Bool) (addr : String)
    → (raw : String) × (user_data env control_plane addr "#cloud-config\nusers: []" ≡ ok raw)
unfolding user_data add_persistent_lo_address_to_cloud_init cloud_init_yaml_to_json after_newline
    is_empty
converts true addr = (_, refl)
converts false addr = (_, refl)

provides : Provides env "ubuntu"
unfolding is_empty lookup
provides = record {
  serves = serves;
  helps = λ t m. refl;
  patches = λ t before m. refl;
  updates = λ t m. (_, refl, refl);
  bootstrap = λ t key. (_, refl, (_, refl, converts));
  flavor = λ t c input. (_, _, refl, refl, refl);
  images = λ t c input. (_, refl, (((_, refl), ((_, refl), ((_, refl), tt))), (_, refl, refl)));
  instance_made = λ t c input. (_, _, refl, refl, (refl, tt));
  member = λ t c input. (_, _, _, refl, refl, refl);
  running = λ t c input. (_, _, refl, refl, refl);
}

machine_normal-returns_example :
    Ends
      (λ s _. (s.0.status.ready ≡ true) × (s.1.requeue_after ≡ 0))
      (λ _. ⊥)
      (reconcile_normal env owner_cluster full_cluster owner_machine new_machine)
      []
machine_normal-returns_example =
    machine_normal-returns env owner_cluster full_cluster owner_machine new_machine [] "bootstrap"
      refl refl provides

abbrev owner_key : NamespacedName
owner_key = record { namespace = "default"; name = "cp-0-owner" }

wx_one_cluster_to_wx_one_machines-Requests_example :
    Ends
      (λ ks _. Requests owner_key (owner_machine ∷ []) ks)
      (λ _. ⊥)
      (wx_one_cluster_to_wx_one_machines env (some full_cluster))
      []
wx_one_cluster_to_wx_one_machines-Requests_example =
    wx_one_cluster_to_wx_one_machines-Requests env full_cluster owner_cluster (owner_machine ∷ [])
      owner_key [] (λ t. refl) (λ t. refl)

machine_normal-AllGuarded_example :
    AllGuarded owner_machine new_machine
      (reconcile_normal env owner_cluster full_cluster owner_machine new_machine []).1
machine_normal-AllGuarded_example =
    machine_normal-AllGuarded env owner_cluster full_cluster owner_machine new_machine new_machine
      [] adds_finalizer tt

machine_run-IsMatched_example : IsMatched new_machine (run new_machine life [])
machine_run-IsMatched_example = machine_run-IsMatched new_machine life
