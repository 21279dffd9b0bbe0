-- ===== src/Graphql/Responses.antt =====
-- The answers. Every operation's answer struct has one pointer, nil where the server sent null,
-- to a struct of a code, an error text and a message; the message is a pointer or a list of
-- pointers, nil or with nil entries where the server sent null.
use capi_wx_one.Base.{ℕ, String, Bool, Option, List}
use capi_wx_one.Graphql.Inputs.{AvailabilityZone}

-- The struct behind the pointer; `M` is the message, at its nullable type.
pub record Payload (M : Type 0) : Type 0 where
  pub code : ℕ
  pub err_text : Option String
  pub msg : M

-- An answer struct: its one field.
abbrev pub Answer : Type 0 → Type 0
Answer M = Option (Payload M)

pub record FloatingGroupMember : Type 0 where
  pub id : String
  pub vm_id : String

pub record FloatingIp : Type 0 where
  pub id : String
  pub ip : String

-- type InstanceStatus string
abbrev pub InstanceStatus : Type 0
InstanceStatus = String

abbrev pub instance_status_running : InstanceStatus
instance_status_running = "RUNNING"

pub record CreatedInstance : Type 0 where
  pub id : String
  pub status : InstanceStatus
  pub addresses : List (Option String)

pub record CreatedKey : Type 0 where
  pub id : String

pub record CreatedSubnet : Type 0 where
  pub cidr : String
  pub id : String
  pub name : String

pub record CreatedNetwork : Type 0 where
  pub id : String
  pub name : String
  pub subnets : List (Option CreatedSubnet)

pub record DefaultProject : Type 0 where
  pub id : String
  pub name : Option String

pub record FoundFlavor : Type 0 where
  pub id : String

pub record ListedImage : Type 0 where
  pub id : String
  pub name : Option String

pub record FoundInstance : Type 0 where
  pub id : String
  pub name : String
  pub status : InstanceStatus
  pub availability_zone : Option String
  pub flavor_id : Option String

-- `me` answers with a pointer to its user, without a code.
pub record UserInformation : Type 0 where
  pub id : String
  pub username : String
  pub role : Option ℕ

-- The messages of getKey, getNetwork, updateKey and updateNetwork.
pub record FoundKey : Type 0 where
  pub id : String
  pub name : String
  pub public_key : String
  pub project_wide : Bool

pub record FoundSubnet : Type 0 where
  pub id : String
  pub name : String
  pub ip_version : Option String
  pub cidr : String

pub record FoundNetwork : Type 0 where
  pub id : String
  pub name : String
  pub availability_zone : Option AvailabilityZone
  pub subnets : List (Option FoundSubnet)

pub record UpdatedKey : Type 0 where
  pub id : String

pub record UpdatedNetwork : Type 0 where
  pub id : String
