-- ===== src/Memory/AmendedTemplates.antt =====
-- The same for the two template kinds.
use capi_wx_one.Base.{Option, none, some, ◌≡◌, refl, sym, ap, ◌∙◌}
use capi_wx_one.Api.{
  TemplateMeta, WxOneClusterSpec, WxOneMachineSpec, WxOneClusterTemplate, WxOneMachineTemplate,
  WxOneClusterTemplateSpec, WxOneMachineTemplateSpec,
}
use capi_wx_one.Memory.Heap.{Heap, and_then}
use capi_wx_one.Memory.Contents.{Cell}
use capi_wx_one.Memory.Layout.{ClusterTemplateMem, MachineTemplateMem}
use capi_wx_one.Memory.Readings.{
  Typed, read_object_meta, read_template_meta, read_cluster_spec, read_machine_spec,
  read_cluster_template_spec, read_cluster_template, read_machine_template_spec,
  read_machine_template,
}
use capi_wx_one.Memory.Admission.{
  set_endpoint, set_provider, amend_cluster_template, amend_machine_template,
}
use capi_wx_one.Webhook.Validators.{with_endpoint_of, with_provider_of}
use capi_wx_one.Memory.Amended.{read_second, some_id, read_set_endpoint, read_set_provider}

cluster_resource_lem :
    (m : Option TemplateMeta) (s s' : Option WxOneClusterSpec) (n : WxOneClusterTemplateSpec)
    → and_then
        (and_then m (λ a. and_then s (λ b. some (record { meta = a; spec = b }))))
        (λ t. some (record { template = t }))
      ≡ some n
    → (s ≡ some n.template.spec)
      × ((v : WxOneClusterSpec)
          → s' ≡ some v
          → and_then
              (and_then m (λ a. and_then s' (λ b. some (record { meta = a; spec = b }))))
              (λ t. some (record { template = t }))
            ≡ some (record n { template = record n.template { spec = v } }))
cluster_resource_lem none s s' n h = cc
cluster_resource_lem (some a) none s' n h = cc
cluster_resource_lem (some a) (some b) s' n h =
    let made : WxOneClusterTemplateSpec = record { template = record { meta = a; spec = b } } in
    let e : made ≡ n = cc h in
    (
      ap (λ (t : WxOneClusterTemplateSpec). some t.template.spec) e,
      λ v there. rw there (
          ap
            (λ (t : WxOneClusterTemplateSpec).
              some (record t { template = record t.template { spec = v } }))
            e),
    )

pub cluster_template-spec :
    (x : ClusterTemplateMem) (k : Heap Cell) (n : Typed WxOneClusterTemplate)
    → read_cluster_template x k ≡ some n
    → read_cluster_template_spec x.spec k ≡ some n.object.spec
cluster_template-spec x k n h =
    sym (some_id (read_cluster_template_spec x.spec k))
    ∙ read_second
        (λ a b. record { type_meta = x.type_meta; object = record { meta = a; spec = b } })
        (λ v. v.object.spec) (read_object_meta x.meta k) (read_cluster_template_spec x.spec k) n
        (λ b. b) h (λ a b. refl)

pub amend_cluster_template-spec :
    (x y : ClusterTemplateMem) (k : Heap Cell) (n o : WxOneClusterTemplateSpec)
    → read_cluster_template_spec x.spec k ≡ some n
    → read_cluster_template_spec y.spec k ≡ some o
    → read_cluster_template_spec (amend_cluster_template x y).spec k
      ≡ some (record n {
        template = record n.template { spec = with_endpoint_of o.template.spec n.template.spec };
      })
amend_cluster_template-spec x y k n o h h' =
    let x_spec = x.spec.template.spec in
    let y_spec = y.spec.template.spec in
    let (new_there, amended) =
      cluster_resource_lem (read_template_meta x.spec.template.meta k) (read_cluster_spec x_spec k)
        (read_cluster_spec (set_endpoint x_spec y_spec) k) n h in
    let (old_there, _) =
      cluster_resource_lem (read_template_meta y.spec.template.meta k) (read_cluster_spec y_spec k)
        none o h' in
    amended (with_endpoint_of o.template.spec n.template.spec)
      (read_set_endpoint x_spec y_spec k n.template.spec o.template.spec new_there old_there)

machine_resource_lem :
    (m : Option TemplateMeta) (s s' : Option WxOneMachineSpec) (n : WxOneMachineTemplateSpec)
    → and_then
        (and_then m (λ a. and_then s (λ b. some (record { meta = a; spec = b }))))
        (λ t. some (record { template = t }))
      ≡ some n
    → (s ≡ some n.template.spec)
      × ((v : WxOneMachineSpec)
          → s' ≡ some v
          → and_then
              (and_then m (λ a. and_then s' (λ b. some (record { meta = a; spec = b }))))
              (λ t. some (record { template = t }))
            ≡ some (record n { template = record n.template { spec = v } }))
machine_resource_lem none s s' n h = cc
machine_resource_lem (some a) none s' n h = cc
machine_resource_lem (some a) (some b) s' n h =
    let made : WxOneMachineTemplateSpec = record { template = record { meta = a; spec = b } } in
    let e : made ≡ n = cc h in
    (
      ap (λ (t : WxOneMachineTemplateSpec). some t.template.spec) e,
      λ v there. rw there (
          ap
            (λ (t : WxOneMachineTemplateSpec).
              some (record t { template = record t.template { spec = v } }))
            e),
    )

pub machine_template-spec :
    (x : MachineTemplateMem) (k : Heap Cell) (n : Typed WxOneMachineTemplate)
    → read_machine_template x k ≡ some n
    → read_machine_template_spec x.spec k ≡ some n.object.spec
machine_template-spec x k n h =
    sym (some_id (read_machine_template_spec x.spec k))
    ∙ read_second
        (λ a b. record { type_meta = x.type_meta; object = record { meta = a; spec = b } })
        (λ v. v.object.spec) (read_object_meta x.meta k) (read_machine_template_spec x.spec k) n
        (λ b. b) h (λ a b. refl)

pub amend_machine_template-spec :
    (x y : MachineTemplateMem) (k : Heap Cell) (n o : WxOneMachineTemplateSpec)
    → read_machine_template_spec x.spec k ≡ some n
    → read_machine_template_spec y.spec k ≡ some o
    → read_machine_template_spec (amend_machine_template x y).spec k
      ≡ some (record n {
        template = record n.template { spec = with_provider_of o.template.spec n.template.spec };
      })
amend_machine_template-spec x y k n o h h' =
    let x_spec = x.spec.template.spec in
    let y_spec = y.spec.template.spec in
    let (new_there, amended) =
      machine_resource_lem (read_template_meta x.spec.template.meta k) (read_machine_spec x_spec k)
        (read_machine_spec (set_provider x_spec y_spec) k) n h in
    let (old_there, _) =
      machine_resource_lem (read_template_meta y.spec.template.meta k) (read_machine_spec y_spec k)
        none o h' in
    amended (with_provider_of o.template.spec n.template.spec)
      (read_set_provider x_spec y_spec k n.template.spec o.template.spec new_there old_there)
