-- ===== src/Api/Templates.antt =====
-- api/v1beta1/wxoneclustertemplate_types.go and wxonemachinetemplate_types.go. The status types
-- have no fields and are left out.
use capi_wx_one.Base.{String, Option, Dict}
use capi_wx_one.Api.Upstream.{ObjectMeta}
use capi_wx_one.Api.Cluster.{WxOneClusterSpec}
use capi_wx_one.Api.Machine.{WxOneMachineSpec}

-- clusterv1.ObjectMeta: two maps, `none` where nil, each listed in the order of its keys, so that
-- two are the same map exactly where they are the same list.
pub record TemplateMeta : Type 0 where
  pub labels : Option (Dict String)
  pub annotations : Option (Dict String)

pub record WxOneClusterTemplateResource : Type 0 where
  pub meta : TemplateMeta
  pub spec : WxOneClusterSpec

pub record WxOneClusterTemplateSpec : Type 0 where
  pub template : WxOneClusterTemplateResource

pub record WxOneClusterTemplate : Type 0 where
  pub meta : ObjectMeta
  pub spec : WxOneClusterTemplateSpec

pub record WxOneMachineTemplateResource : Type 0 where
  pub meta : TemplateMeta
  pub spec : WxOneMachineSpec

pub record WxOneMachineTemplateSpec : Type 0 where
  pub template : WxOneMachineTemplateResource

pub record WxOneMachineTemplate : Type 0 where
  pub meta : ObjectMeta
  pub spec : WxOneMachineTemplateSpec
