-- ===== src/Tests/Cluster.antt =====
-- Runs of the WXOneCluster controller, and each theorem about it at a concrete input.
use capi_wx_one.Base.{
  true, false, some, [], ◌∷◌, ◌≡◌, ◌⊎◌, refl, is_empty, eq_refl, ◌≤◌, lookup, List,
}
use capi_wx_one.Api.{NamespacedName}
use capi_wx_one.Api.{WxOneCluster}
use capi_wx_one.Effects.{ok, panic, message, GraphqlClient, ◌>>=◌}
use capi_wx_one.Effects.Ends.{Ends}
use capi_wx_one.Cluster.Reconciler.{reconcile, reconcile_normal, reconcile_delete}
use capi_wx_one.Cluster.Accounting.{count}
use capi_wx_one.Cluster.Ready.{IsServing, is_complete, reconcile_normal-IsServing}
use capi_wx_one.Cluster.Progress.{Serves, Cooperates, reconcile_normal-returns}
use capi_wx_one.Cluster.Deletion.{Released, Held, reconcile_delete-Released}
use capi_wx_one.Cluster.Admitted.{AllAdmitted, reconcile-AllAdmitted}
use capi_wx_one.Cluster.Settled.{creation, IsSettled, reconcile_normal-idle, reconcile_normal-owner}
use capi_wx_one.Cluster.Unauthenticated.{RefusesMe, reconcile_normal-never_ok}
use capi_wx_one.Clients.Login.{
  new_wx_one_clients, post, hash_password, checked, split, or_env, get_in, as_string, as_number,
}
use capi_wx_one.Clients.Success.{LetsIn, new_wx_one_clients-returns}
use capi_wx_one.Webhook.Immutable.{SameCluster}
use capi_wx_one.Cluster.Finishes.{Deletes, reconcile_delete-finishes}
use capi_wx_one.Cluster.Guarded.{AddsFinalizer, AllGuarded, reconcile_normal-AllGuarded}
use capi_wx_one.Cluster.Stages
use capi_wx_one.Cluster.Stages.{project_id}
use capi_wx_one.Graphql.Operations
use capi_wx_one.Effects.Outside.{Kube}
use capi_wx_one.Tests.{kube, new_cluster, full_cluster, owner_cluster, env, refusing_env}
use capi_wx_one.Effects.Bounded.{length}
use capi_wx_one.Cluster.Accounting.{IsMatched}
use capi_wx_one.Cluster.Accounting.Life.{Step, normal, removal, run, run-IsMatched}
use capi_wx_one.Cluster.Calls.{reconcile-bound}
use capi_wx_one.Clients.Login

abbrev ready_cluster : WxOneCluster
ready_cluster = record full_cluster {
  spec = record full_cluster.spec {
    control_plane_endpoint = record { host = "192.0.2.7"; port = 6443 };
  };
}

full_cluster-IsSettled : IsSettled full_cluster
unfolding is_empty
full_cluster-IsSettled = record {
  has_project = refl;
  has_subnet = refl;
  has_address = refl;
  has_key = refl;
}

reconcile_normal-IsServing_example :
    Ends
      (λ c' u. (is_complete c' ≡ false) ⊎ IsServing new_cluster c' u)
      (λ _. Unit {0})
      (reconcile_normal env new_cluster owner_cluster)
      []
reconcile_normal-IsServing_example =
    reconcile_normal-IsServing env new_cluster new_cluster owner_cluster []

reconcile_delete-Released_example :
    Ends
      (Released full_cluster full_cluster env)
      (Held full_cluster full_cluster)
      (reconcile_delete env full_cluster)
      []
reconcile_delete-Released_example = reconcile_delete-Released env full_cluster full_cluster [] refl

same_cluster : SameCluster new_cluster.spec new_cluster.spec
same_cluster = record {
  same_project = refl;
  same_zone = refl;
  same_network = refl;
  same_ssh_key = refl;
  same_credentials = refl;
}

reconcile-AllAdmitted_example :
    AllAdmitted new_cluster (reconcile_normal env new_cluster owner_cluster []).1
    × AllAdmitted new_cluster (reconcile_delete env new_cluster []).1
reconcile-AllAdmitted_example =
    reconcile-AllAdmitted env new_cluster owner_cluster [] same_cluster tt

reconcile_normal-idle_example :
    count creation (reconcile_normal env full_cluster owner_cluster []).1 ≡ count creation []
reconcile_normal-idle_example =
    reconcile_normal-idle env full_cluster owner_cluster [] full_cluster-IsSettled

reconcile_normal-owner_example :
    reconcile_normal env new_cluster owner_cluster
    ≡ reconcile_normal env new_cluster
        (record owner_cluster { control_plane_endpoint = record { host = "lb"; port = 443 } })
reconcile_normal-owner_example =
    reconcile_normal-owner env new_cluster owner_cluster
      (record owner_cluster { control_plane_endpoint = record { host = "lb"; port = 443 } })

refuses : RefusesMe refusing_env
refuses = λ t c. (message "unauthenticated", refl)

no_project : is_empty (project_id new_cluster) ≡ true
unfolding is_empty
no_project = refl

reconcile_normal-never_ok_example :
    Ends (λ _ _. ⊥) (λ _. Unit {0}) (reconcile_normal refusing_env new_cluster owner_cluster) []
reconcile_normal-never_ok_example =
    reconcile_normal-never_ok refusing_env refuses new_cluster owner_cluster [] no_project

-- A run where WX-ONE refuses `me`.
refused_run : (reconcile_normal refusing_env new_cluster owner_cluster []).0 ≡ panic
unfolding reconcile_normal Stages.new_helper Stages.add_finalizer Stages.connect Stages.credentials
    Stages.choose_credentials Stages.read_secret new_wx_one_clients post hash_password split checked
    Operations.me Stages.ensure_project Stages.fetch_project is_empty or_env ◌>>=◌
refused_run = refl

-- A first run makes the three resources and marks the cluster ready.
first_run : (reconcile_normal env new_cluster owner_cluster []).0 ≡ ok ready_cluster
unfolding reconcile_normal Stages.new_helper Stages.add_finalizer Stages.connect Stages.credentials
    Stages.choose_credentials Stages.read_secret new_wx_one_clients post hash_password split checked
    Operations.me Stages.ensure_project Stages.fetch_project Stages.ensure_network
    Stages.make_network Stages.ensure_floating_ip Stages.make_floating_ip Stages.ensure_ssh_key
    Stages.make_ssh_key Stages.ensure_ready Stages.mark_ready is_empty or_env ◌>>=◌
first_run = refl

-- Whatever the API server, a login is accepted.
pub lets_in : (k : Kube) → LetsIn (record env { kube = k })
unfolding get_in as_string as_number
lets_in k = record {
  on_challenge = λ t host body. (
    record { body = "{…}"; set_cookie = "sid=1; Path=/" },
    _,
    refl,
    refl,
    record { salt = (_, refl); challenge = (_, refl); date = (_, refl); rounds = (_, refl) },
  );
  on_login = λ t host body. (record { body = "{…}"; set_cookie = "sid=1; Path=/" }, _, refl, refl);
  on_me = λ t c. (_, refl);
}

new_wx_one_clients-returns_example :
    Ends
      (λ clients _. (c : GraphqlClient) × (clients.graphql_client ≡ some c))
      (λ _. ⊥)
      (new_wx_one_clients env "https://wx" "u" "p")
      []
new_wx_one_clients-returns_example =
    new_wx_one_clients-returns env (lets_in kube) "https://wx" "u" "p" []

pub serves : Serves env
serves = record {
  lets_in = lets_in kube;
  helps = λ t c. refl;
  patches = λ t before c. refl;
  has_secret = λ t key. (_, refl);
}

cooperates : Cooperates env
unfolding is_empty
cooperates = record {
  serves = serves;
  project = λ t c. (_, _, refl, refl, tt);
  network = λ t c input. (_, _, refl, refl, (_, _, refl, refl));
  floating_ip = λ t c input. (_, _, refl, refl, refl);
  key = λ t c input. (_, _, refl, refl, refl);
}

reconcile_normal-returns_example :
    Ends
      (λ c' _. (is_complete c' ≡ true) × (c'.status.ready ≡ true))
      (λ _. ⊥)
      (reconcile_normal env new_cluster owner_cluster)
      []
reconcile_normal-returns_example =
    reconcile_normal-returns env new_cluster owner_cluster [] cooperates

deletes : Deletes env
deletes = record {
  serves = serves;
  network = λ t c input. (_, refl);
  floating_ip = λ t c input. (_, refl);
  key = λ t c input. (_, refl);
}

reconcile_delete-finishes_example :
    Ends (Released full_cluster full_cluster env) (λ _. ⊥) (reconcile_delete env full_cluster) []
reconcile_delete-finishes_example =
    reconcile_delete-finishes env full_cluster full_cluster [] refl deletes

pub adds_finalizer : AddsFinalizer env
adds_finalizer fs f = rw (eq_refl f) refl

reconcile_normal-AllGuarded_example :
    AllGuarded new_cluster (reconcile_normal env new_cluster owner_cluster []).1
reconcile_normal-AllGuarded_example =
    reconcile_normal-AllGuarded env new_cluster new_cluster owner_cluster [] adds_finalizer tt

abbrev key : NamespacedName
key = record { namespace = "default"; name = "blue" }

reconcile-bound_example : length (reconcile env key []).1 ≤ 15
reconcile-bound_example = reconcile-bound env key []

-- A first run against servers that answer makes 13 of the 15 calls below the two look-ups.
thirteen_calls : length (reconcile_normal env new_cluster owner_cluster []).1 ≡ 13
unfolding reconcile_normal Stages.new_helper Stages.add_finalizer Stages.connect
    Stages.ensure_project Stages.ensure_network Stages.ensure_floating_ip Stages.ensure_ssh_key
    Stages.ensure_ready ◌>>=◌ Stages.patch is_empty Stages.credentials Stages.choose_credentials
    Stages.read_secret Login.new_wx_one_clients Login.post Login.hash_password Login.checked
    Login.get_in Login.as_string Login.as_number Login.hash_rounds Login.split Operations.me
    Operations.create_network Operations.create_floating_ip Operations.create_key
    Operations.get_default_project Stages.make_network Stages.make_floating_ip Stages.make_ssh_key
    Stages.fetch_project Stages.mark_ready Login.or_env lookup Stages.set_endpoints
thirteen_calls = refl

-- A reconcile that loses its way, one that succeeds, and a deletion.
abbrev life : List Step
life = normal refusing_env owner_cluster ∷ normal env owner_cluster ∷ removal env ∷ []

run-IsMatched_example : IsMatched new_cluster (run new_cluster life [])
run-IsMatched_example = run-IsMatched new_cluster life
