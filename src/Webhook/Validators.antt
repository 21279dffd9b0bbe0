-- ===== src/Webhook/Validators.antt =====
-- The admission handlers of the four kinds. A handler takes any runtime object and tests its type;
-- the warnings are always nil, so only the error is kept. The objects are values here,
-- which nothing shares, and a copy is the value; Memory has the same validators on pointers.
use capi_wx_one.Base.{⊤, String, ◌<>◌, Bool, ◌==◌, if◌then◌else◌}
use capi_wx_one.Api.{
  WxOneCluster, WxOneMachine, WxOneClusterTemplate, WxOneMachineTemplate, WxOneClusterSpec,
  WxOneMachineSpec,
}
use capi_wx_one.Api.Equality.{
  deep_equal, WxOneClusterSpec-discrete, WxOneMachineSpec-discrete,
  WxOneClusterTemplateSpec-discrete, WxOneMachineTemplateSpec-discrete,
}
use capi_wx_one.Effects.{message, Reply, done, failed}

-- runtime.Object: one of the four kinds, or another with the name of its type
pub data Object : Type 0 where
  cluster : WxOneCluster → Object
  machine : WxOneMachine → Object
  cluster_template : WxOneClusterTemplate → Object
  machine_template : WxOneMachineTemplate → Object
  other : String → Object

-- `%T`
abbrev pub type_name : Object → String
type_name (cluster c) = "*v1beta1.WXOneCluster"
type_name (machine m) = "*v1beta1.WXOneMachine"
type_name (cluster_template c) = "*v1beta1.WXOneClusterTemplate"
type_name (machine_template m) = "*v1beta1.WXOneMachineTemplate"
type_name (other name) = name

abbrev pub Admission : Type 0
Admission = Reply ⊤

abbrev pub accept : Admission
accept = done tt

abbrev pub refuse : String → Admission
refuse text = failed (message text)

abbrev pub expected : String → Object → Admission
expected text o = refuse (text <> type_name o)

abbrev pub unchanged : Bool → Admission
unchanged same = if same then accept else refuse "modifications to spec are not allowed"

-- WXOneCluster
abbrev pub with_endpoint_of : WxOneClusterSpec → WxOneClusterSpec → WxOneClusterSpec
with_endpoint_of old new = record new { control_plane_endpoint = old.control_plane_endpoint }

unfoldable pub default_cluster : Object → Admission
default_cluster (cluster c) = accept
default_cluster o = expected "expected an WXOneCluster object but got " o

unfoldable pub validate_create_cluster : Object → Admission
validate_create_cluster (cluster c) =
    if c.spec.project.name == "default"
    then accept
    else refuse
        ("currently only the project 'default' is supported, you specified " <> c.spec.project.name)
validate_create_cluster o = expected "expected a WXOneCluster object but got " o

unfoldable pub update_cluster : WxOneCluster → WxOneCluster → Admission
unfolding deep_equal WxOneClusterSpec-discrete
update_cluster old new =
    unchanged (deep_equal WxOneClusterSpec-discrete (with_endpoint_of old.spec new.spec) old.spec)

-- The old object first. A wrong old object is reported by the new one's type, as in the source.
unfoldable pub validate_update_cluster : Object → Object → Admission
validate_update_cluster (cluster old) (cluster new) = update_cluster old new
validate_update_cluster _ (cluster new) =
    expected "expected a WXOneCluster object for the oldObj but got " (cluster new)
validate_update_cluster _ new =
    expected "expected a WXOneCluster object for the newObj but got " new

unfoldable pub validate_delete_cluster : Object → Admission
validate_delete_cluster (cluster c) = accept
validate_delete_cluster o = expected "expected a WXOneCluster object but got " o

-- WXOneMachine
abbrev pub with_provider_of : WxOneMachineSpec → WxOneMachineSpec → WxOneMachineSpec
with_provider_of old new = record new { provider_id = old.provider_id }

unfoldable pub default_machine : Object → Admission
default_machine (machine m) = accept
default_machine o = expected "expected an WXOneMachine object but got " o

unfoldable pub validate_create_machine : Object → Admission
validate_create_machine (machine m) = accept
validate_create_machine o = expected "expected a WXOneMachine object but got " o

unfoldable pub update_machine : WxOneMachine → WxOneMachine → Admission
unfolding deep_equal WxOneMachineSpec-discrete
update_machine old new =
    unchanged (deep_equal WxOneMachineSpec-discrete (with_provider_of old.spec new.spec) old.spec)

unfoldable pub validate_update_machine : Object → Object → Admission
validate_update_machine (machine old) (machine new) = update_machine old new
validate_update_machine _ (machine new) =
    expected "expected a WXOneMachine object for the oldObj but got " (machine new)
validate_update_machine _ new =
    expected "expected a WXOneMachine object for the newObj but got " new

unfoldable pub validate_delete_machine : Object → Admission
validate_delete_machine (machine m) = accept
validate_delete_machine o = expected "expected a WXOneMachine object but got " o

-- WXOneClusterTemplate
unfoldable pub default_cluster_template : Object → Admission
default_cluster_template (cluster_template c) = accept
default_cluster_template o = expected "expected an WXOneClusterTemplate object but got " o

unfoldable pub validate_create_cluster_template : Object → Admission
validate_create_cluster_template (cluster_template c) = accept
validate_create_cluster_template o = expected "expected a WXOneClusterTemplate object but got " o

unfoldable pub update_cluster_template : WxOneClusterTemplate → WxOneClusterTemplate → Admission
unfolding deep_equal WxOneClusterTemplateSpec-discrete
update_cluster_template old new =
    let new_copy = record new.spec {
      template = record new.spec.template {
        spec = with_endpoint_of old.spec.template.spec new.spec.template.spec;
      };
    } in
    unchanged (deep_equal WxOneClusterTemplateSpec-discrete new_copy old.spec)

unfoldable pub validate_update_cluster_template : Object → Object → Admission
validate_update_cluster_template (cluster_template old) (cluster_template new) =
    update_cluster_template old new
validate_update_cluster_template _ (cluster_template new) =
    expected "expected a WXOneClusterTemplate object for the oldObj but got " (cluster_template new)
validate_update_cluster_template _ new =
    expected "expected a WXOneClusterTemplate object for the newObj but got " new

unfoldable pub validate_delete_cluster_template : Object → Admission
validate_delete_cluster_template (cluster_template c) = accept
validate_delete_cluster_template o = expected "expected a WXOneClusterTemplate object but got " o

-- WXOneMachineTemplate
unfoldable pub default_machine_template : Object → Admission
default_machine_template (machine_template m) = accept
default_machine_template o = expected "expected an WXOneMachineTemplate object but got " o

unfoldable pub validate_create_machine_template : Object → Admission
validate_create_machine_template (machine_template m) = accept
validate_create_machine_template o = expected "expected a WXOneMachineTemplate object but got " o

unfoldable pub update_machine_template : WxOneMachineTemplate → WxOneMachineTemplate → Admission
unfolding deep_equal WxOneMachineTemplateSpec-discrete
update_machine_template old new =
    let new_copy = record new.spec {
      template = record new.spec.template {
        spec = with_provider_of old.spec.template.spec new.spec.template.spec;
      };
    } in
    unchanged (deep_equal WxOneMachineTemplateSpec-discrete new_copy old.spec)

-- The text for a wrong old object names the machine's kind, as in the source.
unfoldable pub validate_update_machine_template : Object → Object → Admission
validate_update_machine_template (machine_template old) (machine_template new) =
    update_machine_template old new
validate_update_machine_template _ (machine_template new) =
    expected "expected a WXOneMachine object for the oldObj but got " (machine_template new)
validate_update_machine_template _ new =
    expected "expected a WXOneMachineTemplate object for the newObj but got " new

unfoldable pub validate_delete_machine_template : Object → Admission
validate_delete_machine_template (machine_template m) = accept
validate_delete_machine_template o = expected "expected a WXOneMachineTemplate object but got " o
