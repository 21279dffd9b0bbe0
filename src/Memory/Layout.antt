-- ===== src/Memory/Layout.antt =====
-- The structs of api/v1beta1 as they lie in memory: a pointer, a slice or a map is an address, and
-- what lies at it is a cell. Structs without pointers are values, the same as in Api. Of the
-- structs of other packages there are the fields that the controllers read, and of the metadata of
-- a list one text and one pointer.
use capi_wx_one.Base.{String, Bool, Option}
use capi_wx_one.Api.{
  ResourceReference, Project, SshKey, WxOneClusterStatus, ApiEndpoint, Flavor, Image,
}
use capi_wx_one.Memory.Heap.{Ptr}

-- metav1.TypeMeta
pub record TypeMeta : Type 0 where
  pub kind : String
  pub api_version : String

-- metav1.ObjectMeta; a nil slice of finalizers is an array without elements.
pub record ObjectMetaMem : Type 0 where
  pub name : String
  pub namespace : String
  pub finalizers : Ptr
  pub deletion_timestamp : Option Ptr

-- clusterv1.ObjectMeta
pub record TemplateMetaMem : Type 0 where
  pub labels : Option Ptr
  pub annotations : Option Ptr

-- metav1.ListMeta
pub record ListMetaMem : Type 0 where
  pub resource_version : String
  pub remaining_item_count : Option Ptr

pub record NetworkMem : Type 0 where
  pub name : String
  pub subnets : Option Ptr

pub record ClusterSpecMem : Type 0 where
  pub project : Project
  pub availability_zone : String
  pub network : NetworkMem
  pub ssh_key : SshKey
  pub control_plane_endpoint : ApiEndpoint
  pub credentials_secret_ref : Option Ptr

pub record ClusterMem : Type 0 where
  pub type_meta : TypeMeta
  pub meta : ObjectMetaMem
  pub spec : ClusterSpecMem
  pub status : WxOneClusterStatus

pub record MachineSpecMem : Type 0 where
  pub flavor : Flavor
  pub image : Image
  pub provider_id : Option Ptr

pub record MachineStatusMem : Type 0 where
  pub ready : Bool
  pub addresses : Option Ptr
  pub flavor : ResourceReference
  pub image : ResourceReference
  pub instance_ref : ResourceReference
  pub floating_ip_attachement : ResourceReference

pub record MachineMem : Type 0 where
  pub type_meta : TypeMeta
  pub meta : ObjectMetaMem
  pub spec : MachineSpecMem
  pub status : MachineStatusMem

-- The status of a template has no fields.
abbrev pub TemplateStatus : Type 0
TemplateStatus = Unit

pub record ClusterTemplateResourceMem : Type 0 where
  pub meta : TemplateMetaMem
  pub spec : ClusterSpecMem

pub record ClusterTemplateSpecMem : Type 0 where
  pub template : ClusterTemplateResourceMem

pub record ClusterTemplateMem : Type 0 where
  pub type_meta : TypeMeta
  pub meta : ObjectMetaMem
  pub spec : ClusterTemplateSpecMem
  pub status : TemplateStatus

pub record MachineTemplateResourceMem : Type 0 where
  pub meta : TemplateMetaMem
  pub spec : MachineSpecMem

pub record MachineTemplateSpecMem : Type 0 where
  pub template : MachineTemplateResourceMem

pub record MachineTemplateMem : Type 0 where
  pub type_meta : TypeMeta
  pub meta : ObjectMetaMem
  pub spec : MachineTemplateSpecMem
  pub status : TemplateStatus

-- A list of objects of one kind
pub record ListMem : Type 0 where
  pub type_meta : TypeMeta
  pub list_meta : ListMetaMem
  pub items : Option Ptr
