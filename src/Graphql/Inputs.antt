-- ===== src/Graphql/Inputs.antt =====
-- The variables of the operations: the structs __createNetworkInput and its fellows.
use capi_wx_one.Base.{ℕ, String, Bool, Option, List}

-- type AvailabilityZone string, and likewise W1UserDataMode and W1SevType
abbrev pub AvailabilityZone : Type 0
AvailabilityZone = String

pub record FloatingGroupVmInput : Type 0 where
  pub priority : ℕ
  pub vm : String

pub record SevOptionsInput : Type 0 where
  pub dh_cert : Option String
  pub session : Option String
  pub kernel_hashes : Option String

pub record SubnetInput : Type 0 where
  pub name : String
  pub ip_version : String
  pub cidr : Option String

pub record UserDataInput : Type 0 where
  pub content : String
  pub mode : Option String

pub record InstanceAdditionalInput : Type 0 where
  pub v_tpm : Option Bool
  pub uefi : Option Bool
  pub sev_type : Option String
  pub sev_options : Option SevOptionsInput
  pub user_data : Option UserDataInput

pub record CreateFloatingGroupInput : Type 0 where
  pub id : String
  pub project_id : String
  pub vms : List (Option FloatingGroupVmInput)
  pub nat_to_vms_private_ip : Option Bool
  pub attach : Option Bool

pub record CreateFloatingIpInput : Type 0 where
  pub project_id : String

pub record CreateInstanceInput : Type 0 where
  pub network_id : String
  pub flavor_id : String
  pub image_id : String
  pub project_id : String
  pub name : String
  pub ssh_keys : List String
  pub zone : AvailabilityZone
  pub managed : Bool
  pub additional : Option InstanceAdditionalInput

pub record CreateKeyInput : Type 0 where
  pub name : String
  pub public_key : String
  pub project_id : Option String
  pub project_wide : Option Bool

pub record CreateNetworkInput : Type 0 where
  pub name : String
  pub availability_zone : Option AvailabilityZone
  pub project_id : Option String
  pub subnets : List (Option SubnetInput)

pub record DeleteFloatingGroupInput : Type 0 where
  pub project_id : String
  pub floating_ip_id : String
  pub instance_id : String

pub record DeleteFloatingIpInput : Type 0 where
  pub id : String
  pub project_id : String

pub record DeleteInstanceInput : Type 0 where
  pub id : String
  pub project_id : String

pub record DeleteKeyInput : Type 0 where
  pub id : String
  pub project_id : Option String

pub record DeleteNetworkInput : Type 0 where
  pub id : String
  pub project_id : String

pub record GetFlavorByNameInput : Type 0 where
  pub name : String

pub record GetImageListInput : Type 0 where
  pub project_id : String

pub record GetInstanceInput : Type 0 where
  pub id : String
  pub project_id : String

-- The variables of the requests that no controller makes.
pub record GetFloatingIpInput : Type 0 where
  pub id : String
  pub project_id : String

pub record GetFloatingIpAttachmentInput : Type 0 where
  pub id : String
  pub project_id : String

pub record GetKeyInput : Type 0 where
  pub id : Option String
  pub name : Option String
  pub project_id : Option String
  pub project_wide : Option Bool

pub record GetNetworkInput : Type 0 where
  pub id : String
  pub project_id : String

pub record UpdateKeyInput : Type 0 where
  pub id : String
  pub project_id : Option String
  pub name : String

pub record UpdateNetworkInput : Type 0 where
  pub id : String
  pub project_id : Option String
  pub name : String
