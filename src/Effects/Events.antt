-- ===== src/Effects/Events.antt =====
-- One call that left the program, with what came back where a statement speaks of it. The newest
-- event of a trace comes first.
use capi_wx_one.Base.{⊤, String, Option, List, Dict}
use capi_wx_one.Api.{NamespacedName, CapiMachine, WxOneCluster, WxOneMachine}
use capi_wx_one.Graphql.Inputs.{
  CreateNetworkInput, DeleteNetworkInput, CreateFloatingIpInput, DeleteFloatingIpInput,
  CreateKeyInput, DeleteKeyInput, CreateInstanceInput, DeleteInstanceInput,
  CreateFloatingGroupInput, DeleteFloatingGroupInput, GetFlavorByNameInput, GetImageListInput,
  GetInstanceInput, GetFloatingIpInput, GetFloatingIpAttachmentInput, GetKeyInput, GetNetworkInput,
  UpdateKeyInput, UpdateNetworkInput,
}
use capi_wx_one.Graphql.Responses.{
  Answer, CreatedNetwork, FloatingIp, CreatedKey, CreatedInstance, FloatingGroupMember,
  FoundInstance, UpdatedKey, UpdatedNetwork,
}
use capi_wx_one.Effects.Errors.{Reply}

-- A read of the Kubernetes API.
pub data Query : Type 0 where
  get_cluster get_machine get_secret : NamespacedName → Query
  owner_cluster owners owner_machine : String → Query
  cluster_of_metadata : String → Query
  list_machines : String → String → Query

-- A read of the WX-ONE API.
pub data Question : Type 0 where
  me default_project : Question
  flavor_by_name : GetFlavorByNameInput → Question
  image_list : GetImageListInput → Question
  floating_ip : GetFloatingIpInput → Question
  floating_ip_attachment : GetFloatingIpAttachmentInput → Question
  key : GetKeyInput → Question
  network : GetNetworkInput → Question
  instance_of : GetInstanceInput → Reply (Answer (Option FoundInstance)) → Question

pub data Event : Type 0 where
  read : Query → Event
  posted : String → Dict String → Event
  asked : Question → Event
  -- the object before, which the patch helper keeps, and the object now
  patched_cluster : WxOneCluster → WxOneCluster → Reply ⊤ → Event
  patched_machine : WxOneMachine → WxOneMachine → Reply ⊤ → Event
  updated_machine : CapiMachine → Reply CapiMachine → Event
  created_network : CreateNetworkInput → Reply (Answer (Option CreatedNetwork)) → Event
  deleted_network : DeleteNetworkInput → Reply (Answer (Option String)) → Event
  created_floating_ip : CreateFloatingIpInput → Reply (Answer (Option FloatingIp)) → Event
  deleted_floating_ip : DeleteFloatingIpInput → Reply (Answer (Option String)) → Event
  created_key : CreateKeyInput → Reply (Answer (Option CreatedKey)) → Event
  deleted_key : DeleteKeyInput → Reply (Answer (Option String)) → Event
  created_instance : CreateInstanceInput → Reply (Answer (Option CreatedInstance)) → Event
  deleted_instance : DeleteInstanceInput → Reply (Answer (Option String)) → Event
  created_floating_group :
      CreateFloatingGroupInput → Reply (Answer (List (Option FloatingGroupMember))) → Event
  deleted_floating_group : DeleteFloatingGroupInput → Reply (Answer (Option String)) → Event
  updated_key : UpdateKeyInput → Reply (Answer (Option UpdatedKey)) → Event
  updated_network : UpdateNetworkInput → Reply (Answer (Option UpdatedNetwork)) → Event

abbrev pub Trace : Type 0
Trace = List Event
