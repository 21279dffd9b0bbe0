-- ===== src/Graphql/Operations.antt =====
-- The functions of internal/controller/generated.go that the controllers call: each packs its
-- arguments into the variables and makes the request. The client is an interface value; a nil one
-- panics at the call of its method MakeRequest.
use capi_wx_one.Base.{String, Bool, Option, List}
use capi_wx_one.Graphql.Inputs.{
  AvailabilityZone, FloatingGroupVmInput, SubnetInput, InstanceAdditionalInput,
  CreateFloatingGroupInput, CreateFloatingIpInput, CreateInstanceInput, CreateKeyInput,
  CreateNetworkInput, DeleteFloatingGroupInput, DeleteFloatingIpInput, DeleteInstanceInput,
  DeleteKeyInput, DeleteNetworkInput, GetFlavorByNameInput, GetImageListInput, GetInstanceInput,
}
use capi_wx_one.Graphql.Responses.{
  Answer, CreatedNetwork, FloatingIp, CreatedKey, CreatedInstance, FloatingGroupMember,
  DefaultProject, FoundFlavor, ListedImage, FoundInstance, UserInformation,
}
use capi_wx_one.Effects.{Env, Exec, Reply, ◌>>=◌, call, attempt, deref}
use capi_wx_one.Effects.Outside.{GraphqlClient}
use capi_wx_one.Effects.{Event, Question}

module _ (env : Env) (client : Option GraphqlClient) where
  unfoldable pub create_floating_group :
      String
      → String
      → List (Option FloatingGroupVmInput)
      → Option Bool
      → Option Bool
      → Exec (Answer (List (Option FloatingGroupMember)))
  create_floating_group id project_id vms nat_to_vms_private_ip attach = do
    c ← deref client
    let input : CreateFloatingGroupInput = record {
      id = id;
      project_id = project_id;
      vms = vms;
      nat_to_vms_private_ip = nat_to_vms_private_ip;
      attach = attach;
    }
    call (λ t. env.api.create_floating_group t c input) (Event.created_floating_group input)

  unfoldable pub create_floating_ip : String → Exec (Answer (Option FloatingIp))
  create_floating_ip project_id = do
    c ← deref client
    let input : CreateFloatingIpInput = record { project_id = project_id }
    call (λ t. env.api.create_floating_ip t c input) (Event.created_floating_ip input)

  unfoldable pub create_instance :
      String
      → String
      → String
      → String
      → String
      → List String
      → AvailabilityZone
      → Bool
      → Option InstanceAdditionalInput
      → Exec (Answer (Option CreatedInstance))
  create_instance network_id flavor_id image_id project_id name ssh_keys zone managed additional =
      do
        c ← deref client
        let input : CreateInstanceInput = record {
          network_id = network_id;
          flavor_id = flavor_id;
          image_id = image_id;
          project_id = project_id;
          name = name;
          ssh_keys = ssh_keys;
          zone = zone;
          managed = managed;
          additional = additional;
        }
        call (λ t. env.api.create_instance t c input) (Event.created_instance input)

  unfoldable pub create_key :
      String → String → Option String → Option Bool → Exec (Answer (Option CreatedKey))
  create_key name public_key project_id project_wide = do
    c ← deref client
    let input : CreateKeyInput = record {
      name = name;
      public_key = public_key;
      project_id = project_id;
      project_wide = project_wide;
    }
    call (λ t. env.api.create_key t c input) (Event.created_key input)

  unfoldable pub create_network :
      String
      → Option AvailabilityZone
      → Option String
      → List (Option SubnetInput)
      → Exec (Answer (Option CreatedNetwork))
  create_network name availability_zone project_id subnets = do
    c ← deref client
    let input : CreateNetworkInput = record {
      name = name;
      availability_zone = availability_zone;
      project_id = project_id;
      subnets = subnets;
    }
    call (λ t. env.api.create_network t c input) (Event.created_network input)

  -- The machine's caller goes on after an error, so the reply is handed over whole.
  unfoldable pub delete_floating_group_by_floating_ip_id_and_instance_id :
      String → String → String → Exec (Reply (Answer (Option String)))
  delete_floating_group_by_floating_ip_id_and_instance_id project_id floating_ip_id instance_id = do
    c ← deref client
    let input : DeleteFloatingGroupInput = record {
      project_id = project_id;
      floating_ip_id = floating_ip_id;
      instance_id = instance_id;
    }
    attempt (λ t. env.api.delete_floating_group t c input) (Event.deleted_floating_group input)

  unfoldable pub delete_floating_ip : String → String → Exec (Answer (Option String))
  delete_floating_ip id project_id = do
    c ← deref client
    let input : DeleteFloatingIpInput = record { id = id; project_id = project_id }
    call (λ t. env.api.delete_floating_ip t c input) (Event.deleted_floating_ip input)

  unfoldable pub delete_instance : String → String → Exec (Answer (Option String))
  delete_instance id project_id = do
    c ← deref client
    let input : DeleteInstanceInput = record { id = id; project_id = project_id }
    call (λ t. env.api.delete_instance t c input) (Event.deleted_instance input)

  unfoldable pub delete_key : String → Option String → Exec (Answer (Option String))
  delete_key id project_id = do
    c ← deref client
    let input : DeleteKeyInput = record { id = id; project_id = project_id }
    call (λ t. env.api.delete_key t c input) (Event.deleted_key input)

  unfoldable pub delete_network : String → String → Exec (Answer (Option String))
  delete_network id project_id = do
    c ← deref client
    let input : DeleteNetworkInput = record { id = id; project_id = project_id }
    call (λ t. env.api.delete_network t c input) (Event.deleted_network input)

  unfoldable pub get_default_project : Exec (Answer (Option DefaultProject))
  get_default_project = do
    c ← deref client
    call (λ t. env.api.get_default_project t c) (λ _. Event.asked Question.default_project)

  unfoldable pub get_flavor_by_name : String → Exec (Answer (Option FoundFlavor))
  get_flavor_by_name name = do
    c ← deref client
    let input : GetFlavorByNameInput = record { name = name }
    call (λ t. env.api.get_flavor_by_name t c input)
        (λ _. Event.asked (Question.flavor_by_name input))

  unfoldable pub get_image_list : String → Exec (Answer (List (Option ListedImage)))
  get_image_list project_id = do
    c ← deref client
    let input : GetImageListInput = record { project_id = project_id }
    call (λ t. env.api.get_image_list t c input) (λ _. Event.asked (Question.image_list input))

  unfoldable pub get_instance : String → String → Exec (Answer (Option FoundInstance))
  get_instance id project_id = do
    c ← deref client
    let input : GetInstanceInput = record { id = id; project_id = project_id }
    call (λ t. env.api.get_instance t c input) (λ r. Event.asked (Question.instance_of input r))

  -- Its caller looks at the error.
  unfoldable pub me : Exec (Reply (Option UserInformation))
  me = do c ← deref client; attempt (λ t. env.api.me t c) (λ _. Event.asked Question.me)
