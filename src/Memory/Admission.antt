-- ===== src/Memory/Admission.antt =====
-- ValidateUpdate of the four kinds in memory: both objects are copied, one field of the new copy is
-- overwritten, and reflect.DeepEqual compares the specs, through their pointers.
use capi_wx_one.Base.{Option, none, some}
use capi_wx_one.Api.Equality.{
  deep_equal, WxOneClusterSpec-discrete, WxOneMachineSpec-discrete,
  WxOneClusterTemplateSpec-discrete, WxOneMachineTemplateSpec-discrete,
}
use capi_wx_one.Memory.Heap.{Ptr, Heap, M, Slot, pure, ◌>>=◌, ◌>>◌, and_then, load, store}
use capi_wx_one.Memory.Layout.{
  ClusterSpecMem, MachineSpecMem, ClusterMem, MachineMem, ClusterTemplateMem, MachineTemplateMem,
}
use capi_wx_one.Memory.Contents.{Cell}
use capi_wx_one.Memory.Slots
use capi_wx_one.Memory.Copying.{deep_copy}
use capi_wx_one.Memory.Readings.{
  read_cluster_spec, read_machine_spec, read_cluster_template_spec, read_machine_template_spec,
}
use capi_wx_one.Memory.DeepCopyInto
use capi_wx_one.Memory.DeepCopyInto.{Upstream}
use capi_wx_one.Webhook.Validators.{Admission, unchanged}

-- `p.f`: a nil pointer is a fault.
abbrev pub non_nil : Option Ptr → M Cell Ptr
non_nil none h = none
non_nil (some p) h = some (p, h)

-- What a value means in the memory of this moment.
abbrev pub examine : {A : Type 0} → (Heap Cell → Option A) → M Cell A
examine r h = and_then (r h) (λ a. some (a, h))

module _ {T W : Type 0} (slot : Slot Cell T) (copy : T → M Cell T) (amend : T → T → T)
    (spec_of : T → Heap Cell → Option W) (dec : Discrete W) where
  -- The common body, the new object first: `amend` overwrites the field that may change.
  unfoldable pub admit_update : Ptr → Ptr → M Cell Admission
  unfolding deep_copy deep_equal
  admit_update new old = do
    new_copy ← deep_copy slot copy (some new)
    old_copy ← deep_copy slot copy (some old)
    n ← non_nil new_copy
    o ← non_nil old_copy
    x ← load slot n
    y ← load slot o
    store slot n (amend x y)
    x' ← load slot n
    y' ← load slot o
    a ← examine (spec_of x')
    b ← examine (spec_of y')
    pure (unchanged (deep_equal dec a b))

-- `new.Spec.ControlPlaneEndpoint = old.Spec.ControlPlaneEndpoint`
abbrev pub set_endpoint : ClusterSpecMem → ClusterSpecMem → ClusterSpecMem
set_endpoint new old = record new { control_plane_endpoint = old.control_plane_endpoint }

-- `new.Spec.ProviderID = old.Spec.ProviderID`: from here on the copies share the text.
abbrev pub set_provider : MachineSpecMem → MachineSpecMem → MachineSpecMem
set_provider new old = record new { provider_id = old.provider_id }

abbrev pub amend_cluster : ClusterMem → ClusterMem → ClusterMem
amend_cluster new old = record new { spec = set_endpoint new.spec old.spec }

abbrev pub amend_machine : MachineMem → MachineMem → MachineMem
amend_machine new old = record new { spec = set_provider new.spec old.spec }

abbrev pub amend_cluster_template : ClusterTemplateMem → ClusterTemplateMem → ClusterTemplateMem
amend_cluster_template new old = record new {
  spec = record new.spec {
    template = record new.spec.template {
      spec = set_endpoint new.spec.template.spec old.spec.template.spec;
    };
  };
}

abbrev pub amend_machine_template : MachineTemplateMem → MachineTemplateMem → MachineTemplateMem
amend_machine_template new old = record new {
  spec = record new.spec {
    template = record new.spec.template {
      spec = set_provider new.spec.template.spec old.spec.template.spec;
    };
  };
}

module _ (up : Upstream) where
  unfoldable pub admit_cluster_update : Ptr → Ptr → M Cell Admission
  unfolding admit_update DeepCopyInto.cluster WxOneClusterSpec-discrete
  admit_cluster_update =
      admit_update Slots.cluster (DeepCopyInto.cluster up) amend_cluster
        (λ x. read_cluster_spec x.spec) WxOneClusterSpec-discrete

  unfoldable pub admit_machine_update : Ptr → Ptr → M Cell Admission
  unfolding admit_update DeepCopyInto.machine WxOneMachineSpec-discrete
  admit_machine_update =
      admit_update Slots.machine (DeepCopyInto.machine up) amend_machine
        (λ x. read_machine_spec x.spec) WxOneMachineSpec-discrete

  unfoldable pub admit_cluster_template_update : Ptr → Ptr → M Cell Admission
  unfolding admit_update DeepCopyInto.cluster_template WxOneClusterTemplateSpec-discrete
  admit_cluster_template_update =
      admit_update Slots.cluster_template (DeepCopyInto.cluster_template up) amend_cluster_template
        (λ x. read_cluster_template_spec x.spec) WxOneClusterTemplateSpec-discrete

  unfoldable pub admit_machine_template_update : Ptr → Ptr → M Cell Admission
  unfolding admit_update DeepCopyInto.machine_template WxOneMachineTemplateSpec-discrete
  admit_machine_template_update =
      admit_update Slots.machine_template (DeepCopyInto.machine_template up) amend_machine_template
        (λ x. read_machine_template_spec x.spec) WxOneMachineTemplateSpec-discrete
