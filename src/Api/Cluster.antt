-- ===== src/Api/Cluster.antt =====
-- api/v1beta1/wxonecluster_types.go
use capi_wx_one.Base.{String, Bool, Option, Slice}
use capi_wx_one.Api.Upstream.{ObjectMeta, ApiEndpoint}

abbrev pub cluster_finalizer : String
cluster_finalizer = "wxonecluster.infrastructure.cluster.x-k8s.io"

pub record LocalSecretReference : Type 0 where
  pub name : String

-- The string type WXOneResourceStatus and its named values.
abbrev pub ResourceStatus : Type 0
ResourceStatus = String

pub record ResourceReference : Type 0 where
  pub resource_id : String
  pub resource_status : ResourceStatus

pub record Project : Type 0 where
  pub name : String

pub record Subnet : Type 0 where
  pub name : String
  pub ip_version : String
  pub cidr : String

pub record Network : Type 0 where
  pub name : String
  pub subnets : Slice Subnet

pub record NetworkResource : Type 0 where
  pub resource_id : String
  pub subnet_reference : ResourceReference

pub record FloatingIpResource : Type 0 where
  pub resource_id : String
  pub ip : String

pub record SshKey : Type 0 where
  pub name : String
  pub public_key : String
  pub project_wide : Bool

pub record WxOneClusterSpec : Type 0 where
  pub project : Project
  pub availability_zone : String
  pub network : Network
  pub ssh_key : SshKey
  pub control_plane_endpoint : ApiEndpoint
  pub credentials_secret_ref : Option LocalSecretReference

pub record WxOneClusterStatus : Type 0 where
  pub ready : Bool
  pub project : ResourceReference
  pub network : NetworkResource
  pub ssh_key : ResourceReference
  pub floating_ip : FloatingIpResource

pub record WxOneCluster : Type 0 where
  pub meta : ObjectMeta
  pub spec : WxOneClusterSpec
  pub status : WxOneClusterStatus
