-- ===== src/Api/Upstream.antt =====
-- Objects of Kubernetes and of the Cluster API: the fields that the controllers read or write.
use capi_wx_one.Base.{ℕ, String, Bool, Option, Dict, List}

pub record NamespacedName : Type 0 where
  pub namespace : String
  pub name : String

-- metav1.ObjectMeta; a time is in seconds since Go's zero time, and `none` is a nil pointer.
pub record ObjectMeta : Type 0 where
  pub name : String
  pub namespace : String
  pub finalizers : List String
  pub deletion_timestamp : Option ℕ

-- clusterv1.APIEndpoint
pub record ApiEndpoint : Type 0 where
  pub host : String
  pub port : ℕ

-- clusterv1.Cluster; `infrastructure_ref` is the name in Spec.InfrastructureRef.
pub record CapiCluster : Type 0 where
  pub name : String
  pub control_plane_endpoint : ApiEndpoint
  pub infrastructure_ref : Option String
  pub infrastructure_ready : Bool

-- clusterv1.Machine; `annotations` is `none` for a nil map.
pub record CapiMachine : Type 0 where
  pub name : String
  pub namespace : String
  pub annotations : Option (Dict String)
  pub labels : Dict String
  pub data_secret_name : Option String
  pub infrastructure_ref_name : String

-- corev1.Secret, its field Data
pub record Secret : Type 0 where
  pub entries : Dict String

-- clusterv1.MachineAddress
pub data MachineAddressType : Type 0 where
  internal_ip : MachineAddressType

pub record MachineAddress : Type 0 where
  pub kind : MachineAddressType
  pub address : String
