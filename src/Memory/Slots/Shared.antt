-- ===== src/Memory/Slots/Shared.antt =====
-- The cells of the types that the objects share, and of arrays and basic values.
use capi_wx_one.Base.{ℕ, String, Option, some, none, List, Dict, refl}
use capi_wx_one.Api.{
  LocalSecretReference, ResourceReference, Project, Subnet, NetworkResource, FloatingIpResource,
  SshKey, Flavor, Image, MachineAddress,
}
use capi_wx_one.Memory.Heap.{Slot}
use capi_wx_one.Memory.Layout.{NetworkMem}
use capi_wx_one.Memory.Contents.{Cell}

abbrev as_local_secret_reference : Cell → Option LocalSecretReference
as_local_secret_reference (Cell.local_secret_reference x) = some x
as_local_secret_reference _ = none

abbrev pub local_secret_reference : Slot Cell LocalSecretReference
local_secret_reference = record {
  wrap = Cell.local_secret_reference;
  unwrap = as_local_secret_reference;
  unwrap-wrap = λ x. refl;
}

abbrev as_flavor : Cell → Option Flavor
as_flavor (Cell.flavor x) = some x
as_flavor _ = none

abbrev pub flavor : Slot Cell Flavor
flavor = record { wrap = Cell.flavor; unwrap = as_flavor; unwrap-wrap = λ x. refl }

abbrev as_floating_ip_resource : Cell → Option FloatingIpResource
as_floating_ip_resource (Cell.floating_ip_resource x) = some x
as_floating_ip_resource _ = none

abbrev pub floating_ip_resource : Slot Cell FloatingIpResource
floating_ip_resource = record {
  wrap = Cell.floating_ip_resource;
  unwrap = as_floating_ip_resource;
  unwrap-wrap = λ x. refl;
}

abbrev as_image : Cell → Option Image
as_image (Cell.image x) = some x
as_image _ = none

abbrev pub image : Slot Cell Image
image = record { wrap = Cell.image; unwrap = as_image; unwrap-wrap = λ x. refl }

abbrev as_network : Cell → Option NetworkMem
as_network (Cell.network x) = some x
as_network _ = none

abbrev pub network : Slot Cell NetworkMem
network = record { wrap = Cell.network; unwrap = as_network; unwrap-wrap = λ x. refl }

abbrev as_network_resource : Cell → Option NetworkResource
as_network_resource (Cell.network_resource x) = some x
as_network_resource _ = none

abbrev pub network_resource : Slot Cell NetworkResource
network_resource = record {
  wrap = Cell.network_resource;
  unwrap = as_network_resource;
  unwrap-wrap = λ x. refl;
}

abbrev as_project : Cell → Option Project
as_project (Cell.project x) = some x
as_project _ = none

abbrev pub project : Slot Cell Project
project = record { wrap = Cell.project; unwrap = as_project; unwrap-wrap = λ x. refl }

abbrev as_resource_reference : Cell → Option ResourceReference
as_resource_reference (Cell.resource_reference x) = some x
as_resource_reference _ = none

abbrev pub resource_reference : Slot Cell ResourceReference
resource_reference = record {
  wrap = Cell.resource_reference;
  unwrap = as_resource_reference;
  unwrap-wrap = λ x. refl;
}

abbrev as_ssh_key : Cell → Option SshKey
as_ssh_key (Cell.ssh_key x) = some x
as_ssh_key _ = none

abbrev pub ssh_key : Slot Cell SshKey
ssh_key = record { wrap = Cell.ssh_key; unwrap = as_ssh_key; unwrap-wrap = λ x. refl }

abbrev as_subnet : Cell → Option Subnet
as_subnet (Cell.subnet x) = some x
as_subnet _ = none

abbrev pub subnet : Slot Cell Subnet
subnet = record { wrap = Cell.subnet; unwrap = as_subnet; unwrap-wrap = λ x. refl }

abbrev as_subnets : Cell → Option (List Subnet)
as_subnets (Cell.subnets x) = some x
as_subnets _ = none

abbrev pub subnets : Slot Cell (List Subnet)
subnets = record { wrap = Cell.subnets; unwrap = as_subnets; unwrap-wrap = λ x. refl }

abbrev as_addresses : Cell → Option (List MachineAddress)
as_addresses (Cell.addresses x) = some x
as_addresses _ = none

abbrev pub addresses : Slot Cell (List MachineAddress)
addresses = record { wrap = Cell.addresses; unwrap = as_addresses; unwrap-wrap = λ x. refl }

abbrev as_texts : Cell → Option (List String)
as_texts (Cell.texts x) = some x
as_texts _ = none

abbrev pub texts : Slot Cell (List String)
texts = record { wrap = Cell.texts; unwrap = as_texts; unwrap-wrap = λ x. refl }

abbrev as_text : Cell → Option String
as_text (Cell.text x) = some x
as_text _ = none

abbrev pub text : Slot Cell String
text = record { wrap = Cell.text; unwrap = as_text; unwrap-wrap = λ x. refl }

abbrev as_number : Cell → Option ℕ
as_number (Cell.number x) = some x
as_number _ = none

abbrev pub number : Slot Cell ℕ
number = record { wrap = Cell.number; unwrap = as_number; unwrap-wrap = λ x. refl }

abbrev as_dict : Cell → Option (Dict String)
as_dict (Cell.dict x) = some x
as_dict _ = none

abbrev pub dict : Slot Cell (Dict String)
dict = record { wrap = Cell.dict; unwrap = as_dict; unwrap-wrap = λ x. refl }
