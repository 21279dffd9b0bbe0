-- ===== src/Tests/Pure.antt =====
-- The webhook, the hash and the cloud-init conversion at concrete inputs.
use capi_wx_one.Base.{
  none, some, [], ◌∷◌, ◌≡◌, ◌↔◌, refl, String, ◌<>◌, ◌==◌, if◌then◌else◌, ltb, is_empty,
}
use capi_wx_one.Effects.{Fields, done, ok, panic}
use capi_wx_one.Effects.Values.{str, arr, nil, cons, end, field}
use capi_wx_one.Clients.Login.{get_field, hash_rounds, next_hash, split}
use capi_wx_one.Clients.Hash.{iterate, hash_rounds-iterate}
use capi_wx_one.CloudInit.Text.{trim_space, after_newline}
use capi_wx_one.CloudInit.Convert.{
  append_items, items_or_empty, three_commands, two_files, add_lo_service,
  add_persistent_lo_address_to_cloud_init, cloud_init_yaml_to_json, strip_header,
}
use capi_wx_one.CloudInit.Added.{
  get_field-add_lo_service, add_persistent_lo_address_to_cloud_init-panic,
}
use capi_wx_one.Webhook.Validators.{
  accept, update_cluster, update_machine, update_cluster_template, update_machine_template,
}
use capi_wx_one.Webhook.Immutable.{
  SameCluster, SameMachine, update_cluster-SameCluster, update_machine-SameMachine,
}
use capi_wx_one.Api.{WxOneClusterTemplate, WxOneMachineTemplate}
use capi_wx_one.Webhook.Templates.{
  SameClusterResource, SameMachineResource, update_cluster_template-SameClusterResource,
  update_machine_template-SameMachineResource,
}
use capi_wx_one.CloudInit.Trimmed.{IsTrimmed, strip_header-IsTrimmed}
use capi_wx_one.Tests.{new_cluster, full_cluster, new_machine, codec}

update_cluster-SameCluster_example :
    (update_cluster new_cluster full_cluster ≡ accept)
    ↔ SameCluster full_cluster.spec new_cluster.spec
update_cluster-SameCluster_example = update_cluster-SameCluster new_cluster full_cluster

update_machine-SameMachine_example :
    (update_machine new_machine
        (record new_machine { spec = record new_machine.spec { provider_id = some "wxone://vm1" } })
      ≡ accept)
    ↔ SameMachine (record new_machine.spec { provider_id = some "wxone://vm1" }) new_machine.spec
update_machine-SameMachine_example =
    update_machine-SameMachine new_machine
      (record new_machine { spec = record new_machine.spec { provider_id = some "wxone://vm1" } })

hash_rounds-iterate_example :
    hash_rounds (λ s. "h(" <> s <> ")") "c" 3 "x"
    ≡ iterate (next_hash (λ s. "h(" <> s <> ")") "c") (if ltb 3 1 then 1 else 3) "x"
hash_rounds-iterate_example = hash_rounds-iterate (λ s. "h(" <> s <> ")") "c" 3 "x"

three_rounds : hash_rounds (λ s. "h(" <> s <> ")") "c" 3 "x" ≡ "h(ch(ch(cx)))"
unfolding hash_rounds
three_rounds = refl

abbrev config : Fields
config = field "users" (arr nil) (field "write_files" (arr (cons (str "old") nil)) end)

get_field-add_lo_service_example : get_field "write_files" (add_lo_service "192.0.2.7" config) ≡ (
    if "runcmd" == "write_files"
    then arr (append_items (items_or_empty (get_field "runcmd" config)) three_commands)
    else if "write_files" == "write_files"
    then arr
        (append_items (items_or_empty (get_field "write_files" config)) (two_files "192.0.2.7"))
    else get_field "write_files" config)
get_field-add_lo_service_example = get_field-add_lo_service "192.0.2.7" config "write_files"

add_persistent_lo_address_to_cloud_init-panic_example :
    (add_persistent_lo_address_to_cloud_init codec "#cloud-config\nnull" "192.0.2.7" ≡ panic)
    ↔ (raw : String) × (cloud_init_yaml_to_json codec "#cloud-config\nnull" ≡ ok raw)
      × (codec.json_decode raw ≡ done none)
add_persistent_lo_address_to_cloud_init-panic_example =
    add_persistent_lo_address_to_cloud_init-panic codec "192.0.2.7" "#cloud-config\nnull"

-- User data that holds only `null` below its header makes the conversion panic.
null_panics :
    add_persistent_lo_address_to_cloud_init codec "#cloud-config\nnull" "192.0.2.7" ≡ panic
unfolding add_persistent_lo_address_to_cloud_init cloud_init_yaml_to_json after_newline is_empty
null_panics = refl

stripped : strip_header "#cloud-config\n\n users: []\n" ≡ ok "users: []"
unfolding strip_header after_newline trim_space is_empty
stripped = refl

cookie : split b';' "sid=1; Path=/" ≡ "sid=1" ∷ " Path=/" ∷ []
unfolding split
cookie = refl

abbrev blue_template : WxOneClusterTemplate
blue_template = record {
  meta = new_cluster.meta;
  spec = record {
    template = record {
      meta = record { labels = some (("team", "blue") ∷ []); annotations = none };
      spec = new_cluster.spec;
    };
  };
}

abbrev small_template : WxOneMachineTemplate
small_template = record {
  meta = new_machine.meta;
  spec = record {
    template = record {
      meta = record { labels = none; annotations = none };
      spec = new_machine.spec;
    };
  };
}

update_cluster_template-SameClusterResource_example :
    (update_cluster_template blue_template blue_template ≡ accept)
    ↔ SameClusterResource blue_template.spec.template blue_template.spec.template
update_cluster_template-SameClusterResource_example =
    update_cluster_template-SameClusterResource blue_template blue_template

update_machine_template-SameMachineResource_example :
    (update_machine_template small_template small_template ≡ accept)
    ↔ SameMachineResource small_template.spec.template small_template.spec.template
update_machine_template-SameMachineResource_example =
    update_machine_template-SameMachineResource small_template small_template

stripped_text : strip_header (trim_space " #cloud-config\n\n users: []\n") ≡ ok "users: []"
unfolding strip_header after_newline trim_space is_empty
stripped_text = refl

strip_header-IsTrimmed_example : IsTrimmed "users: []"
strip_header-IsTrimmed_example =
    strip_header-IsTrimmed " #cloud-config\n\n users: []\n" "users: []" stripped_text
