-- ===== src/Memory/Kinds.antt =====
-- The four kinds of objects, each with its struct in memory, its value, its DeepCopy and its
-- validator.
use capi_wx_one.Base.{Option}
use capi_wx_one.Api.{WxOneCluster, WxOneMachine, WxOneClusterTemplate, WxOneMachineTemplate}
use capi_wx_one.Memory.Heap.{Ptr, Heap, M}
use capi_wx_one.Memory.Contents.{Cell}
use capi_wx_one.Memory.Slots
use capi_wx_one.Memory.Copying.{read_object}
use capi_wx_one.Memory.Readings.{
  Typed, Listed, read_cluster, read_machine, read_cluster_template, read_machine_template,
  read_list,
}
use capi_wx_one.Memory.DeepCopyInto.{Upstream}
use capi_wx_one.Memory.DeepCopy
use capi_wx_one.Memory.Admission.{
  admit_cluster_update, admit_machine_update, admit_cluster_template_update,
  admit_machine_template_update,
}
use capi_wx_one.Webhook.Validators.{
  Admission, update_cluster, update_machine, update_cluster_template, update_machine_template,
}

pub data Kind : Type 0 where
  cluster_kind : Kind
  machine_kind : Kind
  cluster_template_kind : Kind
  machine_template_kind : Kind

abbrev pub ObjectOf : Kind → Type 0
ObjectOf cluster_kind = WxOneCluster
ObjectOf machine_kind = WxOneMachine
ObjectOf cluster_template_kind = WxOneClusterTemplate
ObjectOf machine_template_kind = WxOneMachineTemplate

-- The object that the pointer leads to.
abbrev pub object_at : (k : Kind) → Option Ptr → Heap Cell → Option (Option (Typed (ObjectOf k)))
object_at cluster_kind = read_object Slots.cluster read_cluster
object_at machine_kind = read_object Slots.machine read_machine
object_at cluster_template_kind = read_object Slots.cluster_template read_cluster_template
object_at machine_template_kind = read_object Slots.machine_template read_machine_template

-- The list of objects that the pointer leads to.
abbrev pub list_at : (k : Kind) → Option Ptr → Heap Cell → Option (Option (Listed (ObjectOf k)))
list_at cluster_kind = read_object Slots.cluster_list (read_list Slots.cluster_items read_cluster)
list_at machine_kind = read_object Slots.machine_list (read_list Slots.machine_items read_machine)
list_at cluster_template_kind =
    read_object Slots.cluster_template_list
      (read_list Slots.cluster_template_items read_cluster_template)
list_at machine_template_kind =
    read_object Slots.machine_template_list
      (read_list Slots.machine_template_items read_machine_template)

abbrev pub copy_object : Upstream → Kind → Option Ptr → M Cell (Option Ptr)
copy_object up cluster_kind = DeepCopy.cluster up
copy_object up machine_kind = DeepCopy.machine up
copy_object up cluster_template_kind = DeepCopy.cluster_template up
copy_object up machine_template_kind = DeepCopy.machine_template up

abbrev pub copy_list : Upstream → Kind → Option Ptr → M Cell (Option Ptr)
copy_list up cluster_kind = DeepCopy.cluster_list up
copy_list up machine_kind = DeepCopy.machine_list up
copy_list up cluster_template_kind = DeepCopy.cluster_template_list up
copy_list up machine_template_kind = DeepCopy.machine_template_list up

-- The validator on values, the old object first.
abbrev pub update : (k : Kind) → ObjectOf k → ObjectOf k → Admission
update cluster_kind = update_cluster
update machine_kind = update_machine
update cluster_template_kind = update_cluster_template
update machine_template_kind = update_machine_template

-- The validator in memory, the new object first.
abbrev pub admit : Upstream → Kind → Ptr → Ptr → M Cell Admission
admit up cluster_kind = admit_cluster_update up
admit up machine_kind = admit_machine_update up
admit up cluster_template_kind = admit_cluster_template_update up
admit up machine_template_kind = admit_machine_template_update up
