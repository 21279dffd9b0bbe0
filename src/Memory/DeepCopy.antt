-- ===== src/Memory/DeepCopy.antt =====
-- DeepCopy and DeepCopyObject of each type (zz_generated.deepcopy.go).
use capi_wx_one.Base.{Option, none, some}
use capi_wx_one.Memory.Heap.{Ptr, M, pure, ◌>>=◌}
use capi_wx_one.Memory.Contents.{Cell}
use capi_wx_one.Memory.Slots
use capi_wx_one.Memory.Copying.{deep_copy}
use capi_wx_one.Memory.DeepCopyInto
use capi_wx_one.Memory.DeepCopyInto.{Upstream}

abbrev Copier : Type 0
Copier = Option Ptr → M Cell (Option Ptr)

unfoldable pub local_secret_reference : Copier
unfolding deep_copy DeepCopyInto.local_secret_reference
local_secret_reference = deep_copy Slots.local_secret_reference DeepCopyInto.local_secret_reference

unfoldable pub cluster_spec : Copier
unfolding deep_copy DeepCopyInto.cluster_spec
cluster_spec = deep_copy Slots.cluster_spec DeepCopyInto.cluster_spec

unfoldable pub cluster_status : Copier
unfolding deep_copy DeepCopyInto.cluster_status
cluster_status = deep_copy Slots.cluster_status DeepCopyInto.cluster_status

unfoldable pub cluster_template_status : Copier
unfolding deep_copy DeepCopyInto.cluster_template_status
cluster_template_status =
    deep_copy Slots.cluster_template_status DeepCopyInto.cluster_template_status

unfoldable pub flavor : Copier
unfolding deep_copy DeepCopyInto.flavor
flavor = deep_copy Slots.flavor DeepCopyInto.flavor

unfoldable pub floating_ip_resource : Copier
unfolding deep_copy DeepCopyInto.floating_ip_resource
floating_ip_resource = deep_copy Slots.floating_ip_resource DeepCopyInto.floating_ip_resource

unfoldable pub image : Copier
unfolding deep_copy DeepCopyInto.image
image = deep_copy Slots.image DeepCopyInto.image

unfoldable pub machine_spec : Copier
unfolding deep_copy DeepCopyInto.machine_spec
machine_spec = deep_copy Slots.machine_spec DeepCopyInto.machine_spec

unfoldable pub machine_status : Copier
unfolding deep_copy DeepCopyInto.machine_status
machine_status = deep_copy Slots.machine_status DeepCopyInto.machine_status

unfoldable pub machine_template_status : Copier
unfolding deep_copy DeepCopyInto.machine_template_status
machine_template_status =
    deep_copy Slots.machine_template_status DeepCopyInto.machine_template_status

unfoldable pub network : Copier
unfolding deep_copy DeepCopyInto.network
network = deep_copy Slots.network DeepCopyInto.network

unfoldable pub network_resource : Copier
unfolding deep_copy DeepCopyInto.network_resource
network_resource = deep_copy Slots.network_resource DeepCopyInto.network_resource

unfoldable pub project : Copier
unfolding deep_copy DeepCopyInto.project
project = deep_copy Slots.project DeepCopyInto.project

unfoldable pub resource_reference : Copier
unfolding deep_copy DeepCopyInto.resource_reference
resource_reference = deep_copy Slots.resource_reference DeepCopyInto.resource_reference

unfoldable pub ssh_key : Copier
unfolding deep_copy DeepCopyInto.ssh_key
ssh_key = deep_copy Slots.ssh_key DeepCopyInto.ssh_key

unfoldable pub subnet : Copier
unfolding deep_copy DeepCopyInto.subnet
subnet = deep_copy Slots.subnet DeepCopyInto.subnet

module _ (up : Upstream) where
  unfoldable pub cluster : Copier
  unfolding deep_copy DeepCopyInto.cluster
  cluster = deep_copy Slots.cluster (DeepCopyInto.cluster up)

  unfoldable pub cluster_list : Copier
  unfolding deep_copy DeepCopyInto.cluster_list
  cluster_list = deep_copy Slots.cluster_list (DeepCopyInto.cluster_list up)

  unfoldable pub cluster_template : Copier
  unfolding deep_copy DeepCopyInto.cluster_template
  cluster_template = deep_copy Slots.cluster_template (DeepCopyInto.cluster_template up)

  unfoldable pub cluster_template_list : Copier
  unfolding deep_copy DeepCopyInto.cluster_template_list
  cluster_template_list =
      deep_copy Slots.cluster_template_list (DeepCopyInto.cluster_template_list up)

  unfoldable pub cluster_template_resource : Copier
  unfolding deep_copy DeepCopyInto.cluster_template_resource
  cluster_template_resource =
      deep_copy Slots.cluster_template_resource (DeepCopyInto.cluster_template_resource up)

  unfoldable pub cluster_template_spec : Copier
  unfolding deep_copy DeepCopyInto.cluster_template_spec
  cluster_template_spec =
      deep_copy Slots.cluster_template_spec (DeepCopyInto.cluster_template_spec up)

  unfoldable pub machine : Copier
  unfolding deep_copy DeepCopyInto.machine
  machine = deep_copy Slots.machine (DeepCopyInto.machine up)

  unfoldable pub machine_list : Copier
  unfolding deep_copy DeepCopyInto.machine_list
  machine_list = deep_copy Slots.machine_list (DeepCopyInto.machine_list up)

  unfoldable pub machine_template : Copier
  unfolding deep_copy DeepCopyInto.machine_template
  machine_template = deep_copy Slots.machine_template (DeepCopyInto.machine_template up)

  unfoldable pub machine_template_list : Copier
  unfolding deep_copy DeepCopyInto.machine_template_list
  machine_template_list =
      deep_copy Slots.machine_template_list (DeepCopyInto.machine_template_list up)

  unfoldable pub machine_template_resource : Copier
  unfolding deep_copy DeepCopyInto.machine_template_resource
  machine_template_resource =
      deep_copy Slots.machine_template_resource (DeepCopyInto.machine_template_resource up)

  unfoldable pub machine_template_spec : Copier
  unfolding deep_copy DeepCopyInto.machine_template_spec
  machine_template_spec =
      deep_copy Slots.machine_template_spec (DeepCopyInto.machine_template_spec up)

-- runtime.Object, as DeepCopyObject returns it: a pointer with its type. A nil pointer gives nil.
pub data RuntimeObject : Type 0 where
  cluster_object : Ptr → RuntimeObject
  cluster_list_object : Ptr → RuntimeObject
  cluster_template_object : Ptr → RuntimeObject
  cluster_template_list_object : Ptr → RuntimeObject
  machine_object : Ptr → RuntimeObject
  machine_list_object : Ptr → RuntimeObject
  machine_template_object : Ptr → RuntimeObject
  machine_template_list_object : Ptr → RuntimeObject

abbrev pub to_object : (Ptr → RuntimeObject) → Option Ptr → Option RuntimeObject
to_object kind none = none
to_object kind (some p) = some (kind p)

abbrev ObjectCopier : Type 0
ObjectCopier = Option Ptr → M Cell (Option RuntimeObject)

module _ (up : Upstream) where
  unfoldable pub cluster_deep_copy_object : ObjectCopier
  unfolding cluster
  cluster_deep_copy_object p = do c ← cluster up p; pure (to_object cluster_object c)

  unfoldable pub cluster_list_deep_copy_object : ObjectCopier
  unfolding cluster_list
  cluster_list_deep_copy_object p = do c ← cluster_list up p; pure (to_object cluster_list_object c)

  unfoldable pub cluster_template_deep_copy_object : ObjectCopier
  unfolding cluster_template
  cluster_template_deep_copy_object p = do
    c ← cluster_template up p
    pure (to_object cluster_template_object c)

  unfoldable pub cluster_template_list_deep_copy_object : ObjectCopier
  unfolding cluster_template_list
  cluster_template_list_deep_copy_object p = do
    c ← cluster_template_list up p
    pure (to_object cluster_template_list_object c)

  unfoldable pub machine_deep_copy_object : ObjectCopier
  unfolding machine
  machine_deep_copy_object p = do c ← machine up p; pure (to_object machine_object c)

  unfoldable pub machine_list_deep_copy_object : ObjectCopier
  unfolding machine_list
  machine_list_deep_copy_object p = do c ← machine_list up p; pure (to_object machine_list_object c)

  unfoldable pub machine_template_deep_copy_object : ObjectCopier
  unfolding machine_template
  machine_template_deep_copy_object p = do
    c ← machine_template up p
    pure (to_object machine_template_object c)

  unfoldable pub machine_template_list_deep_copy_object : ObjectCopier
  unfolding machine_template_list
  machine_template_list_deep_copy_object p = do
    c ← machine_template_list up p
    pure (to_object machine_template_list_object c)
