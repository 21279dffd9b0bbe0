-- ===== src/Memory/Refined.antt =====
-- The validators in memory refine the ones on values, for the four kinds.
use capi_wx_one.Base.{Option, some, ◌≡◌}
use capi_wx_one.Api.Equality.{
  WxOneClusterSpec-discrete, WxOneMachineSpec-discrete, WxOneClusterTemplateSpec-discrete,
  WxOneMachineTemplateSpec-discrete,
}
use capi_wx_one.Memory.Heap.{Ptr, Heap, M, Slot}
use capi_wx_one.Memory.Separation.{Agree, Reads, Returns}
use capi_wx_one.Memory.Contents.{Cell}
use capi_wx_one.Memory.Slots
use capi_wx_one.Memory.Copying.{read_object}
use capi_wx_one.Memory.Readings.{
  Typed, read_cluster_spec, read_cluster, read_machine_spec, read_machine,
  read_cluster_template_spec, read_cluster_template, read_machine_template_spec,
  read_machine_template,
}
use capi_wx_one.Memory.DeepCopyInto
use capi_wx_one.Memory.DeepCopyInto.{Upstream}
use capi_wx_one.Memory.Kinds.{
  Kind, cluster_kind, machine_kind, cluster_template_kind, machine_template_kind, ObjectOf,
  object_at, update, admit,
}
use capi_wx_one.Memory.Copied.{
  UpstreamCopies, cluster-Copies, machine-Copies, cluster_template-Copies, machine_template-Copies,
}
use capi_wx_one.Memory.Admission.{
  amend_cluster, amend_machine, amend_cluster_template, amend_machine_template,
  admit_cluster_update, admit_machine_update, admit_cluster_template_update,
  admit_machine_template_update,
}
use capi_wx_one.Memory.Admitted.{admit_update-Agreed}
use capi_wx_one.Webhook.Validators.{
  Admission, with_endpoint_of, with_provider_of, update_cluster, update_machine,
  update_cluster_template, update_machine_template,
}
use capi_wx_one.Memory.Amended.{read_set_endpoint, read_set_provider, cluster-spec, machine-spec}
use capi_wx_one.Memory.AmendedTemplates.{
  cluster_template-spec, amend_cluster_template-spec, machine_template-spec,
  amend_machine_template-spec,
}

-- The validator in memory returns what the one on values gives for what the pointers lead to, and
-- leaves the cells in use alone.
abbrev Refines :
    {T A : Type 0}
    → Slot Cell T
    → (T → Heap Cell → Option (Typed A))
    → (A → A → Admission)
    → (Ptr → Ptr → M Cell Admission)
    → Type 0
Refines {T} {A} slot r update admit =
    (new old : Ptr) (n o : Typed A) (h : Heap Cell)
    → Reads 0 h.next h (read_object slot r (some new)) (some n)
    → Reads 0 h.next h (read_object slot r (some old)) (some o)
    → Returns (λ a k. (a ≡ update o.object n.object) × Agree 0 h.next h k) (admit new old h)

module _ (up : Upstream) (copies : UpstreamCopies up) where
  cluster-Refines : Refines Slots.cluster read_cluster update_cluster (admit_cluster_update up)
  unfolding admit_cluster_update update_cluster
  cluster-Refines =
      admit_update-Agreed Slots.cluster read_cluster (DeepCopyInto.cluster up) amend_cluster
        (λ x. read_cluster_spec x.spec) WxOneClusterSpec-discrete (cluster-Copies up copies)
        (λ n o. with_endpoint_of o.object.spec n.object.spec) (λ n o. o.object.spec)
        (λ x y k n o h h'.
          read_set_endpoint x.spec y.spec k n.object.spec o.object.spec (cluster-spec x k n h)
            (cluster-spec y k o h'))
        (λ y k n o h. cluster-spec y k o h)

  machine-Refines : Refines Slots.machine read_machine update_machine (admit_machine_update up)
  unfolding admit_machine_update update_machine
  machine-Refines =
      admit_update-Agreed Slots.machine read_machine (DeepCopyInto.machine up) amend_machine
        (λ x. read_machine_spec x.spec) WxOneMachineSpec-discrete (machine-Copies up copies)
        (λ n o. with_provider_of o.object.spec n.object.spec) (λ n o. o.object.spec)
        (λ x y k n o h h'.
          read_set_provider x.spec y.spec k n.object.spec o.object.spec (machine-spec x k n h)
            (machine-spec y k o h'))
        (λ y k n o h. machine-spec y k o h)

  cluster_template-Refines :
      Refines Slots.cluster_template read_cluster_template update_cluster_template
        (admit_cluster_template_update up)
  unfolding admit_cluster_template_update update_cluster_template
  cluster_template-Refines =
      admit_update-Agreed Slots.cluster_template read_cluster_template
        (DeepCopyInto.cluster_template up) amend_cluster_template
        (λ x. read_cluster_template_spec x.spec) WxOneClusterTemplateSpec-discrete
        (cluster_template-Copies up copies)
        (λ n o. record n.object.spec {
          template = record n.object.spec.template {
            spec = with_endpoint_of o.object.spec.template.spec n.object.spec.template.spec;
          };
        })
        (λ n o. o.object.spec)
        (λ x y k n o h h'.
          amend_cluster_template-spec x y k n.object.spec o.object.spec
            (cluster_template-spec x k n h) (cluster_template-spec y k o h'))
        (λ y k n o h. cluster_template-spec y k o h)

  machine_template-Refines :
      Refines Slots.machine_template read_machine_template update_machine_template
        (admit_machine_template_update up)
  unfolding admit_machine_template_update update_machine_template
  machine_template-Refines =
      admit_update-Agreed Slots.machine_template read_machine_template
        (DeepCopyInto.machine_template up) amend_machine_template
        (λ x. read_machine_template_spec x.spec) WxOneMachineTemplateSpec-discrete
        (machine_template-Copies up copies)
        (λ n o. record n.object.spec {
          template = record n.object.spec.template {
            spec = with_provider_of o.object.spec.template.spec n.object.spec.template.spec;
          };
        })
        (λ n o. o.object.spec)
        (λ x y k n o h h'.
          amend_machine_template-spec x y k n.object.spec o.object.spec
            (machine_template-spec x k n h) (machine_template-spec y k o h'))
        (λ y k n o h. machine_template-spec y k o h)

-- ValidateUpdate of the four kinds, where DeepCopyInto of the metadata copies, and the cells in use
-- alone make the two pointers lead to objects, one and the same or objects that share memory
-- included: it returns without a fault the answer that the validator on values gives for these two
-- objects, and every cell in use is as it was, so the objects of the request are not changed.
pub validate_update-Agree :
    (up : Upstream) (copies : UpstreamCopies up) (kind : Kind) (new old : Ptr)
    (n o : Typed (ObjectOf kind)) (h : Heap Cell)
    → Reads 0 h.next h (object_at kind (some new)) (some n)
    → Reads 0 h.next h (object_at kind (some old)) (some o)
    → Returns
        (λ a k. (a ≡ update kind o.object n.object) × Agree 0 h.next h k)
        (admit up kind new old h)
validate_update-Agree up c cluster_kind = cluster-Refines up c
validate_update-Agree up c machine_kind = machine-Refines up c
validate_update-Agree up c cluster_template_kind = cluster_template-Refines up c
validate_update-Agree up c machine_template_kind = machine_template-Refines up c
