-- ===== src/Memory/Slots/Cluster.antt =====
-- The cells of WXOneCluster and WXOneClusterTemplate.
use capi_wx_one.Base.{Option, some, none, List, refl}
use capi_wx_one.Api.{WxOneClusterStatus}
use capi_wx_one.Memory.Heap.{Slot}
use capi_wx_one.Memory.Layout.{
  ClusterSpecMem, ClusterMem, TemplateStatus, ClusterTemplateResourceMem, ClusterTemplateSpecMem,
  ClusterTemplateMem, ListMem,
}
use capi_wx_one.Memory.Contents.{Cell}

abbrev as_cluster : Cell → Option ClusterMem
as_cluster (Cell.cluster x) = some x
as_cluster _ = none

abbrev pub cluster : Slot Cell ClusterMem
cluster = record { wrap = Cell.cluster; unwrap = as_cluster; unwrap-wrap = λ x. refl }

abbrev as_cluster_list : Cell → Option ListMem
as_cluster_list (Cell.cluster_list x) = some x
as_cluster_list _ = none

abbrev pub cluster_list : Slot Cell ListMem
cluster_list = record {
  wrap = Cell.cluster_list;
  unwrap = as_cluster_list;
  unwrap-wrap = λ x. refl;
}

abbrev as_cluster_spec : Cell → Option ClusterSpecMem
as_cluster_spec (Cell.cluster_spec x) = some x
as_cluster_spec _ = none

abbrev pub cluster_spec : Slot Cell ClusterSpecMem
cluster_spec = record {
  wrap = Cell.cluster_spec;
  unwrap = as_cluster_spec;
  unwrap-wrap = λ x. refl;
}

abbrev as_cluster_status : Cell → Option WxOneClusterStatus
as_cluster_status (Cell.cluster_status x) = some x
as_cluster_status _ = none

abbrev pub cluster_status : Slot Cell WxOneClusterStatus
cluster_status = record {
  wrap = Cell.cluster_status;
  unwrap = as_cluster_status;
  unwrap-wrap = λ x. refl;
}

abbrev as_cluster_template : Cell → Option ClusterTemplateMem
as_cluster_template (Cell.cluster_template x) = some x
as_cluster_template _ = none

abbrev pub cluster_template : Slot Cell ClusterTemplateMem
cluster_template = record {
  wrap = Cell.cluster_template;
  unwrap = as_cluster_template;
  unwrap-wrap = λ x. refl;
}

abbrev as_cluster_template_list : Cell → Option ListMem
as_cluster_template_list (Cell.cluster_template_list x) = some x
as_cluster_template_list _ = none

abbrev pub cluster_template_list : Slot Cell ListMem
cluster_template_list = record {
  wrap = Cell.cluster_template_list;
  unwrap = as_cluster_template_list;
  unwrap-wrap = λ x. refl;
}

abbrev as_cluster_template_resource : Cell → Option ClusterTemplateResourceMem
as_cluster_template_resource (Cell.cluster_template_resource x) = some x
as_cluster_template_resource _ = none

abbrev pub cluster_template_resource : Slot Cell ClusterTemplateResourceMem
cluster_template_resource = record {
  wrap = Cell.cluster_template_resource;
  unwrap = as_cluster_template_resource;
  unwrap-wrap = λ x. refl;
}

abbrev as_cluster_template_spec : Cell → Option ClusterTemplateSpecMem
as_cluster_template_spec (Cell.cluster_template_spec x) = some x
as_cluster_template_spec _ = none

abbrev pub cluster_template_spec : Slot Cell ClusterTemplateSpecMem
cluster_template_spec = record {
  wrap = Cell.cluster_template_spec;
  unwrap = as_cluster_template_spec;
  unwrap-wrap = λ x. refl;
}

abbrev as_cluster_template_status : Cell → Option TemplateStatus
as_cluster_template_status (Cell.cluster_template_status x) = some x
as_cluster_template_status _ = none

abbrev pub cluster_template_status : Slot Cell TemplateStatus
cluster_template_status = record {
  wrap = Cell.cluster_template_status;
  unwrap = as_cluster_template_status;
  unwrap-wrap = λ x. refl;
}

abbrev as_cluster_items : Cell → Option (List ClusterMem)
as_cluster_items (Cell.cluster_items x) = some x
as_cluster_items _ = none

abbrev pub cluster_items : Slot Cell (List ClusterMem)
cluster_items = record {
  wrap = Cell.cluster_items;
  unwrap = as_cluster_items;
  unwrap-wrap = λ x. refl;
}

abbrev as_cluster_template_items : Cell → Option (List ClusterTemplateMem)
as_cluster_template_items (Cell.cluster_template_items x) = some x
as_cluster_template_items _ = none

abbrev pub cluster_template_items : Slot Cell (List ClusterTemplateMem)
cluster_template_items = record {
  wrap = Cell.cluster_template_items;
  unwrap = as_cluster_template_items;
  unwrap-wrap = λ x. refl;
}
