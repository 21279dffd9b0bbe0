-- ===== src/Effects/Outside.antt =====
-- Everything outside the repository, as one record. A call's reply may depend on all calls made
-- before it, so that a theorem about every `Env` covers every behaviour of the API server, of
-- WX-ONE and of other writers between two calls.
use capi_wx_one.Base.{⊤, ℕ, String, Bool, Option, List, Dict}
use capi_wx_one.Api.{
  NamespacedName, ObjectMeta, CapiCluster, CapiMachine, Secret, WxOneCluster, WxOneMachine,
}
use capi_wx_one.Graphql.Inputs.{
  CreateNetworkInput, DeleteNetworkInput, CreateFloatingIpInput, DeleteFloatingIpInput,
  CreateKeyInput, DeleteKeyInput, CreateInstanceInput, DeleteInstanceInput,
  CreateFloatingGroupInput, DeleteFloatingGroupInput, GetFlavorByNameInput, GetImageListInput,
  GetInstanceInput, GetFloatingIpInput, GetFloatingIpAttachmentInput, GetKeyInput, GetNetworkInput,
  UpdateKeyInput, UpdateNetworkInput,
}
use capi_wx_one.Graphql.Responses.{
  Answer, CreatedNetwork, FloatingIp, CreatedKey, CreatedInstance, FloatingGroupMember,
  DefaultProject, FoundFlavor, ListedImage, FoundInstance, UserInformation, FoundKey, FoundNetwork,
  UpdatedKey, UpdatedNetwork,
}
use capi_wx_one.Graphql.Attachments.{AttachableIp, Attachment, AttachmentVm}
use capi_wx_one.Effects.Errors.{Reply}
use capi_wx_one.Effects.Values.{Json, Fields}
use capi_wx_one.Effects.Events.{Trace}

-- resty's response: its body and its Set-Cookie header
pub record HttpResponse : Type 0 where
  pub body : String
  pub set_cookie : String

-- graphql.NewClient: the URL, and the cookie that the transport adds to each request
pub record GraphqlClient : Type 0 where
  pub url : String
  pub cookie : String

-- Texts and encodings: os.Getenv, strings.ToUpper, the hex text of a SHA-512 sum, int(float64)
-- (a loop bound, which is below 1 alike at 0 and below: 0 stands for both), sigs.k8s.io/yaml and encoding/json.
pub record Codec : Type 0 where
  pub getenv : String → String
  pub to_upper : String → String
  pub sha512_hex : String → String
  pub truncate : String → ℕ
  pub yaml_to_json : String → Reply String
  pub json_valid : String → Bool
  -- Unmarshal into a map: `none` is the nil map, which the text `null` gives
  pub json_decode : String → Reply (Option Fields)
  pub json_encode : Json → Reply String

-- WX-ONE's GraphQL operations: client_.MakeRequest, by operation
pub record WxOneApi : Type 0 where
  pub me : Trace → GraphqlClient → Reply (Option UserInformation)
  pub get_default_project : Trace → GraphqlClient → Reply (Answer (Option DefaultProject))
  pub create_network :
      Trace → GraphqlClient → CreateNetworkInput → Reply (Answer (Option CreatedNetwork))
  pub delete_network : Trace → GraphqlClient → DeleteNetworkInput → Reply (Answer (Option String))
  pub create_floating_ip :
      Trace → GraphqlClient → CreateFloatingIpInput → Reply (Answer (Option FloatingIp))
  pub delete_floating_ip :
      Trace → GraphqlClient → DeleteFloatingIpInput → Reply (Answer (Option String))
  pub create_key : Trace → GraphqlClient → CreateKeyInput → Reply (Answer (Option CreatedKey))
  pub delete_key : Trace → GraphqlClient → DeleteKeyInput → Reply (Answer (Option String))
  pub get_flavor_by_name :
      Trace → GraphqlClient → GetFlavorByNameInput → Reply (Answer (Option FoundFlavor))
  pub get_image_list :
      Trace → GraphqlClient → GetImageListInput → Reply (Answer (List (Option ListedImage)))
  pub get_instance :
      Trace → GraphqlClient → GetInstanceInput → Reply (Answer (Option FoundInstance))
  pub create_instance :
      Trace → GraphqlClient → CreateInstanceInput → Reply (Answer (Option CreatedInstance))
  pub delete_instance : Trace → GraphqlClient → DeleteInstanceInput → Reply (Answer (Option String))
  pub create_floating_group :
      Trace
      → GraphqlClient
      → CreateFloatingGroupInput
      → Reply (Answer (List (Option FloatingGroupMember)))
  pub delete_floating_group :
      Trace → GraphqlClient → DeleteFloatingGroupInput → Reply (Answer (Option String))
  pub get_floating_ip :
      Trace → GraphqlClient → GetFloatingIpInput → Reply (Answer (Option AttachableIp))
  pub get_floating_ip_attachment :
      Trace
      → GraphqlClient
      → GetFloatingIpAttachmentInput
      → Reply (Answer (Option (Option (Attachment AttachmentVm))))
  pub get_key : Trace → GraphqlClient → GetKeyInput → Reply (Answer (Option FoundKey))
  pub get_network : Trace → GraphqlClient → GetNetworkInput → Reply (Answer (Option FoundNetwork))
  pub update_key : Trace → GraphqlClient → UpdateKeyInput → Reply (Answer (Option UpdatedKey))
  pub update_network :
      Trace → GraphqlClient → UpdateNetworkInput → Reply (Answer (Option UpdatedNetwork))

-- controller-runtime's client and the helpers of the Cluster API
pub record Kube : Type 0 where
  pub get_cluster : Trace → NamespacedName → Reply WxOneCluster
  pub get_machine : Trace → NamespacedName → Reply WxOneMachine
  pub get_secret : Trace → NamespacedName → Reply Secret
  pub get_owner_cluster : Trace → ObjectMeta → Reply (Option CapiCluster)
  pub add_owners : Trace → WxOneMachine → Reply ⊤
  pub get_owner_machine : Trace → ObjectMeta → Reply (Option CapiMachine)
  pub get_cluster_from_metadata : Trace → CapiMachine → Reply (Option CapiCluster)
  pub list_machines : Trace → String → String → Reply (List CapiMachine)
  pub update_machine : Trace → CapiMachine → Reply CapiMachine
  pub new_cluster_helper : Trace → WxOneCluster → Reply ⊤
  pub new_machine_helper : Trace → WxOneMachine → Reply ⊤
  pub patch_cluster : Trace → WxOneCluster → WxOneCluster → Reply ⊤
  pub patch_machine : Trace → WxOneMachine → WxOneMachine → Reply ⊤
  pub add_finalizer : List String → String → List String
  pub remove_finalizer : List String → String → List String
  pub is_control_plane_machine : CapiMachine → Bool

pub record Env : Type 0 where
  pub codec : Codec
  pub http_post : Trace → String → Dict String → Reply HttpResponse
  pub api : WxOneApi
  pub kube : Kube
