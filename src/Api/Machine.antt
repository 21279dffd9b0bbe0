-- ===== src/Api/Machine.antt =====
-- api/v1beta1/wxonemachine_types.go
use capi_wx_one.Base.{String, Bool, Option, Slice}
use capi_wx_one.Api.Upstream.{ObjectMeta, MachineAddress}
use capi_wx_one.Api.Cluster.{ResourceReference}

abbrev pub machine_finalizer : String
machine_finalizer = "wxonemachine.infrastructure.cluster.x-k8s.io"

pub record Flavor : Type 0 where
  pub name : String

pub record Image : Type 0 where
  pub name : String

pub record WxOneMachineSpec : Type 0 where
  pub flavor : Flavor
  pub image : Image
  pub provider_id : Option String

pub record WxOneMachineStatus : Type 0 where
  pub ready : Bool
  pub addresses : Slice MachineAddress
  pub flavor : ResourceReference
  pub image : ResourceReference
  pub instance_ref : ResourceReference
  pub floating_ip_attachement : ResourceReference

pub record WxOneMachine : Type 0 where
  pub meta : ObjectMeta
  pub spec : WxOneMachineSpec
  pub status : WxOneMachineStatus
