-- ===== src/Tests.antt =====
-- Objects and environments for the tests and the examples: servers that answer, and one that
-- refuses the query `me`.
pub mod Cluster
pub mod Machine
pub mod Manager
pub mod Memory
pub mod Pure
use capi_wx_one.Base.{
  ⊤, ℕ, String, Bool, true, false, Option, none, some, List, [], ◌∷◌, ◌==◌, if◌then◌else◌,
}
use capi_wx_one.Api.{
  WxOneCluster, WxOneMachine, CapiCluster, CapiMachine, Secret, NamespacedName, ApiEndpoint,
  ObjectMeta, ResourceReference, cluster_finalizer, machine_finalizer,
}
use capi_wx_one.Graphql.Responses.{instance_status_running}
use capi_wx_one.Effects.{Env, Trace, Reply, done, failed, message}
use capi_wx_one.Effects.Values.{str, num, end, field}
use capi_wx_one.Effects.Outside.{Codec, WxOneApi, Kube}
use capi_wx_one.Machine.Stages.{pre_drain_hook}

abbrev pub no_reference : ResourceReference
no_reference = record { resource_id = ""; resource_status = "" }

abbrev pub reference : String → ResourceReference
reference id = record { resource_id = id; resource_status = "" }

abbrev pub no_endpoint : ApiEndpoint
no_endpoint = record { host = ""; port = 0 }

-- A WXOneCluster that the controller has not seen yet.
abbrev pub new_cluster : WxOneCluster
new_cluster = record {
  meta = record {
    name = "blue";
    namespace = "default";
    finalizers = [];
    deletion_timestamp = none;
  };
  spec = record {
    project = record { name = "default" };
    availability_zone = "zone1";
    network = record {
      name = "net";
      subnets = some (record { name = "sub"; ip_version = "4"; cidr = "10.0.0.0/24" } ∷ []);
    };
    ssh_key = record { name = "key"; public_key = "ssh-ed25519 AAAA"; project_wide = true };
    control_plane_endpoint = no_endpoint;
    credentials_secret_ref = some (record { name = "credentials" });
  };
  status = record {
    ready = false;
    project = no_reference;
    network = record { resource_id = ""; subnet_reference = no_reference };
    ssh_key = no_reference;
    floating_ip = record { resource_id = ""; ip = "" };
  };
}

-- The same with all resources.
abbrev pub full_cluster : WxOneCluster
full_cluster = record new_cluster {
  meta = record new_cluster.meta { finalizers = cluster_finalizer ∷ [] };
  status = record {
    ready = true;
    project = reference "p1";
    network = record { resource_id = "n1"; subnet_reference = reference "s1" };
    ssh_key = reference "k1";
    floating_ip = record { resource_id = "f1"; ip = "192.0.2.7" };
  };
}

abbrev pub owner_cluster : CapiCluster
owner_cluster = record {
  name = "blue";
  control_plane_endpoint = no_endpoint;
  infrastructure_ref = some "blue";
  infrastructure_ready = true;
}

abbrev pub new_machine : WxOneMachine
new_machine = record {
  meta = record {
    name = "cp-0";
    namespace = "default";
    finalizers = [];
    deletion_timestamp = none;
  };
  spec = record {
    flavor = record { name = "small" };
    image = record { name = "ubuntu" };
    provider_id = none;
  };
  status = record {
    ready = false;
    addresses = none;
    flavor = no_reference;
    image = no_reference;
    instance_ref = no_reference;
    floating_ip_attachement = no_reference;
  };
}

abbrev pub owner_machine : CapiMachine
owner_machine = record {
  name = "cp-0-owner";
  namespace = "default";
  annotations = none;
  labels = [];
  data_secret_name = some "bootstrap";
  infrastructure_ref_name = "cp-0";
}

abbrev pub hooked_machine : CapiMachine
hooked_machine = record owner_machine { annotations = some ((pre_drain_hook, "true") ∷ []) }

abbrev pub codec : Codec
codec = record {
  getenv = λ name. "";
  to_upper = λ s. s;
  sha512_hex = λ s. "0f";
  truncate = λ s. 2;
  yaml_to_json = λ s. done s;
  json_valid = λ s. true;
  json_decode = λ s.
      if s == "null"
      then done none
      else done (
          some (
            field "salt" (str "na") (
              field "challenge" (str "c")
                (field "date" (str "d") (field "rounds" (num "2") end)))));
  json_encode = λ v. done "{}";
}

abbrev pub api : WxOneApi
api = record {
  me = λ t c. done (some (record { id = "u1"; username = "admin"; role = none }));
  get_default_project = λ t c.
      done (
        some
          (record { code = 0; err_text = none; msg = some (record { id = "p1"; name = none }) }));
  create_network = λ t c input. done (
      some (record {
        code = 0;
        err_text = none;
        msg = some (record {
          id = "n1";
          name = "net";
          subnets = some (record { cidr = "10.0.0.0/24"; id = "s1"; name = "sub" }) ∷ [];
        });
      }));
  delete_network = λ t c input. done none;
  create_floating_ip = λ t c input. done (
      some (record {
        code = 0;
        err_text = none;
        msg = some (record { id = "f1"; ip = "192.0.2.7" });
      }));
  delete_floating_ip = λ t c input. done none;
  create_key = λ t c input.
      done (some (record { code = 0; err_text = none; msg = some (record { id = "k1" }) }));
  delete_key = λ t c input. done none;
  get_flavor_by_name = λ t c input.
      done (some (record { code = 0; err_text = none; msg = some (record { id = "fl1" }) }));
  get_image_list = λ t c input. done (
      some (record {
        code = 0;
        err_text = none;
        msg =
            some (record { id = "i1"; name = some "ubuntu" })
            ∷ some (record { id = "i2"; name = some "debian" })
            ∷ some (record { id = "i3"; name = some "ubuntu" })
            ∷ [];
      }));
  get_instance = λ t c input. done (
      some (record {
        code = 0;
        err_text = none;
        msg = some (record {
          id = "vm1";
          name = "cp-0";
          status = instance_status_running;
          availability_zone = none;
          flavor_id = none;
        });
      }));
  create_instance = λ t c input. done (
      some (record {
        code = 0;
        err_text = none;
        msg = some (record { id = "vm1"; status = "CREATING"; addresses = some "10.0.0.5" ∷ [] });
      }));
  delete_instance = λ t c input. done none;
  create_floating_group = λ t c input. done (
      some (record {
        code = 0;
        err_text = none;
        msg = some (record { id = "g1"; vm_id = "vm1" }) ∷ [];
      }));
  delete_floating_group = λ t c input. done none;
  get_floating_ip = λ t c input. done none;
  get_floating_ip_attachment = λ t c input. done none;
  get_key = λ t c input. done none;
  get_network = λ t c input. done none;
  update_key = λ t c input. done none;
  update_network = λ t c input. done none;
}

abbrev pub kube : Kube
kube = record {
  get_cluster = λ t name. done full_cluster;
  get_machine = λ t name. done new_machine;
  get_secret = λ t name. done (record { entries = ("value", "#cloud-config\nusers: []") ∷ [] });
  get_owner_cluster = λ t meta. done (some owner_cluster);
  add_owners = λ t m. done tt;
  get_owner_machine = λ t meta. done (some hooked_machine);
  get_cluster_from_metadata = λ t m. done (some owner_cluster);
  list_machines = λ t namespace name. done (owner_machine ∷ []);
  update_machine = λ t m. done m;
  new_cluster_helper = λ t c. done tt;
  new_machine_helper = λ t m. done tt;
  patch_cluster = λ t before c. done tt;
  patch_machine = λ t before m. done tt;
  add_finalizer = λ fs f. f ∷ fs;
  remove_finalizer = λ fs f. [];
  is_control_plane_machine = λ m. true;
}

abbrev pub env : Env
env = record {
  codec = codec;
  http_post = λ t url body. done (record { body = "{…}"; set_cookie = "sid=1; Path=/" });
  api = api;
  kube = kube;
}

-- WX-ONE refuses `me`.
abbrev pub refusing_env : Env
refusing_env = record env { api = record api { me = λ t c. failed (message "unauthenticated") } }

-- The owner machine has no hook any more.
abbrev pub unhooked_env : Env
unhooked_env = record env {
  kube = record kube { get_owner_machine = λ t meta. done (some owner_machine) };
}
