-- ===== src/Memory/Independent.antt =====
-- What DeepCopy gives for the objects of the API and for their lists.
use capi_wx_one.Base.{Option}
use capi_wx_one.Memory.Separation.{Reads}
use capi_wx_one.Memory.Readings.{Typed, Listed}
use capi_wx_one.Memory.Kinds.{
  Kind, cluster_kind, machine_kind, cluster_template_kind, machine_template_kind, ObjectOf,
  object_at, list_at, copy_object, copy_list,
}
use capi_wx_one.Memory.Heap.{Ptr, Heap}
use capi_wx_one.Memory.Separation.{Returns, Fresh}
use capi_wx_one.Memory.Contents.{Cell}
use capi_wx_one.Memory.Slots
use capi_wx_one.Memory.Objects.{Copies-object}
use capi_wx_one.Memory.Readings.{
  read_cluster, read_machine, read_cluster_template, read_machine_template, read_list,
}
use capi_wx_one.Memory.DeepCopyInto
use capi_wx_one.Memory.DeepCopyInto.{Upstream}
use capi_wx_one.Memory.DeepCopy
use capi_wx_one.Memory.Copied.{
  UpstreamCopies, cluster-Copies, machine-Copies, cluster_template-Copies, machine_template-Copies,
  cluster_list-Copies, machine_list-Copies, cluster_template_list-Copies,
  machine_template_list-Copies,
}

-- DeepCopy of a WXOneCluster, a WXOneMachine, a WXOneClusterTemplate or a WXOneMachineTemplate, where
-- DeepCopyInto of the metadata copies: if the pointer is nil, or the cells in use alone make it lead
-- to a value, then DeepCopy returns without a fault, every cell in use is as it was, and the cells
-- that were free before alone make the new pointer lead to the same value.
pub deep_copy-Fresh :
    (up : Upstream) (copies : UpstreamCopies up) (kind : Kind) (p : Option Ptr)
    (v : Option (Typed (ObjectOf kind))) (h : Heap Cell)
    → Reads 0 h.next h (object_at kind p) v
    → Returns (λ q k. Fresh h (object_at kind q) v k) (copy_object up kind p h)
unfolding DeepCopy.cluster DeepCopy.machine DeepCopy.cluster_template DeepCopy.machine_template
deep_copy-Fresh up c cluster_kind p v h =
    Copies-object Slots.cluster read_cluster (DeepCopyInto.cluster up) (cluster-Copies up c) p v h
deep_copy-Fresh up c machine_kind p v h =
    Copies-object Slots.machine read_machine (DeepCopyInto.machine up) (machine-Copies up c) p v h
deep_copy-Fresh up c cluster_template_kind p v h =
    Copies-object Slots.cluster_template read_cluster_template (DeepCopyInto.cluster_template up)
      (cluster_template-Copies up c) p v h
deep_copy-Fresh up c machine_template_kind p v h =
    Copies-object Slots.machine_template read_machine_template (DeepCopyInto.machine_template up)
      (machine_template-Copies up c) p v h

-- The same for the lists of the four kinds, with all the objects in them.
pub deep_copy_list-Fresh :
    (up : Upstream) (copies : UpstreamCopies up) (kind : Kind) (p : Option Ptr)
    (v : Option (Listed (ObjectOf kind))) (h : Heap Cell)
    → Reads 0 h.next h (list_at kind p) v
    → Returns (λ q k. Fresh h (list_at kind q) v k) (copy_list up kind p h)
unfolding DeepCopy.cluster_list DeepCopy.machine_list DeepCopy.cluster_template_list
    DeepCopy.machine_template_list
deep_copy_list-Fresh up c cluster_kind p v h =
    Copies-object Slots.cluster_list (read_list Slots.cluster_items read_cluster)
      (DeepCopyInto.cluster_list up) (cluster_list-Copies up c) p v h
deep_copy_list-Fresh up c machine_kind p v h =
    Copies-object Slots.machine_list (read_list Slots.machine_items read_machine)
      (DeepCopyInto.machine_list up) (machine_list-Copies up c) p v h
deep_copy_list-Fresh up c cluster_template_kind p v h =
    Copies-object Slots.cluster_template_list
      (read_list Slots.cluster_template_items read_cluster_template)
      (DeepCopyInto.cluster_template_list up) (cluster_template_list-Copies up c) p v h
deep_copy_list-Fresh up c machine_template_kind p v h =
    Copies-object Slots.machine_template_list
      (read_list Slots.machine_template_items read_machine_template)
      (DeepCopyInto.machine_template_list up) (machine_template_list-Copies up c) p v h
