-- ===== src/Memory/Copied.antt =====
-- DeepCopyInto of each type copies: what it makes is read as the original is, in cells of its own.
use capi_wx_one.Base.{refl, ap}
use capi_wx_one.Memory.Separation.{Copies}
use capi_wx_one.Memory.Slots
use capi_wx_one.Memory.Copying.{copy_pointer, copy_items, read_pointer, read_items}
use capi_wx_one.Memory.Shapes.{Copies-pointer, Copies-slice}
use capi_wx_one.Memory.Structs.{Returns-both, Returns-one, Returns-three, Copies-items}
use capi_wx_one.Memory.Readings.{
  read_object_meta, read_template_meta, read_list_meta, read_network, read_cluster_spec,
  read_cluster, read_machine_spec, read_machine_status, read_machine,
  read_cluster_template_resource, read_cluster_template_spec, read_cluster_template,
  read_machine_template_resource, read_machine_template_spec, read_machine_template, read_list,
}
use capi_wx_one.Memory.DeepCopyInto
use capi_wx_one.Memory.DeepCopyInto.{Upstream}

-- What the code relies on: DeepCopyInto of the metadata copies.
pub record UpstreamCopies (up : Upstream) : Type 0 where
  pub object_meta : Copies read_object_meta up.object_meta
  pub template_meta : Copies read_template_meta up.template_meta
  pub list_meta : Copies read_list_meta up.list_meta

network-Copies : Copies read_network DeepCopyInto.network
unfolding DeepCopyInto.network
network-Copies x v h reads =
    Returns-one (read_pointer Slots.subnets) _ (Copies-slice Slots.subnets)
      (λ a. record { name = x.name; subnets = a }) (λ a b e. ap (λ v. v.subnets) e) x.subnets v h _
      read_network reads (λ y k. refl)

cluster_spec-Copies : Copies read_cluster_spec DeepCopyInto.cluster_spec
unfolding DeepCopyInto.cluster_spec
cluster_spec-Copies x v h reads =
    Returns-both read_network (read_pointer Slots.local_secret_reference) DeepCopyInto.network
      (copy_pointer Slots.local_secret_reference)
      (λ a b. record {
        project = x.project;
        availability_zone = x.availability_zone;
        network = a;
        ssh_key = x.ssh_key;
        control_plane_endpoint = x.control_plane_endpoint;
        credentials_secret_ref = b;
      })
      (λ a a' b b' e. (ap (λ v. v.network) e, ap (λ v. v.credentials_secret_ref) e)) x.network
      x.credentials_secret_ref v h _ read_cluster_spec (network-Copies x.network)
      (Copies-pointer Slots.local_secret_reference x.credentials_secret_ref) reads (λ y z k. refl)

machine_spec-Copies : Copies read_machine_spec DeepCopyInto.machine_spec
unfolding DeepCopyInto.machine_spec
machine_spec-Copies x v h reads =
    Returns-one (read_pointer Slots.text) _ (Copies-pointer Slots.text)
      (λ a. record { flavor = x.flavor; image = x.image; provider_id = a })
      (λ a b e. ap (λ v. v.provider_id) e) x.provider_id v h _ read_machine_spec reads (λ y k. refl)

machine_status-Copies : Copies read_machine_status DeepCopyInto.machine_status
unfolding DeepCopyInto.machine_status
machine_status-Copies x v h reads =
    Returns-one (read_pointer Slots.addresses) _ (Copies-slice Slots.addresses)
      (λ a. record {
        ready = x.ready;
        addresses = a;
        flavor = x.flavor;
        image = x.image;
        instance_ref = x.instance_ref;
        floating_ip_attachement = x.floating_ip_attachement;
      })
      (λ a b e. ap (λ v. v.addresses) e) x.addresses v h _ read_machine_status reads (λ y k. refl)

module _ (up : Upstream) (copies : UpstreamCopies up) where
  pub cluster-Copies : Copies read_cluster (DeepCopyInto.cluster up)
  unfolding DeepCopyInto.cluster
  cluster-Copies x v h reads =
      Returns-both read_object_meta read_cluster_spec up.object_meta DeepCopyInto.cluster_spec
        (λ a b. record {
          type_meta = x.type_meta;
          object = record { meta = a; spec = b; status = x.status };
        })
        (λ a a' b b' e. (ap (λ v. v.object.meta) e, ap (λ v. v.object.spec) e)) x.meta x.spec v h _
        read_cluster (copies.object_meta x.meta) (cluster_spec-Copies x.spec) reads (λ y z k. refl)

  pub machine-Copies : Copies read_machine (DeepCopyInto.machine up)
  unfolding DeepCopyInto.machine
  machine-Copies x v h reads =
      Returns-three read_object_meta read_machine_spec read_machine_status up.object_meta
        DeepCopyInto.machine_spec DeepCopyInto.machine_status
        (λ a b c. record {
          type_meta = x.type_meta;
          object = record { meta = a; spec = b; status = c };
        })
        (λ a a' b b' c c' e.
          (ap (λ v. v.object.meta) e, ap (λ v. v.object.spec) e, ap (λ v. v.object.status) e))
        x.meta x.spec x.status v h _ read_machine (copies.object_meta x.meta)
        (machine_spec-Copies x.spec) (machine_status-Copies x.status) reads (λ y z w k. refl)

  cluster_template_resource-Copies :
      Copies read_cluster_template_resource (DeepCopyInto.cluster_template_resource up)
  unfolding DeepCopyInto.cluster_template_resource
  cluster_template_resource-Copies x v h reads =
      Returns-both read_template_meta read_cluster_spec up.template_meta DeepCopyInto.cluster_spec
        (λ a b. record { meta = a; spec = b })
        (λ a a' b b' e. (ap (λ v. v.meta) e, ap (λ v. v.spec) e)) x.meta x.spec v h _
        read_cluster_template_resource (copies.template_meta x.meta) (cluster_spec-Copies x.spec)
        reads (λ y z k. refl)

  cluster_template_spec-Copies :
      Copies read_cluster_template_spec (DeepCopyInto.cluster_template_spec up)
  unfolding DeepCopyInto.cluster_template_spec
  cluster_template_spec-Copies x v h reads =
      Returns-one read_cluster_template_resource _ cluster_template_resource-Copies
        (λ a. record { template = a }) (λ a b e. ap (λ v. v.template) e) x.template v h _
        read_cluster_template_spec reads (λ y k. refl)

  pub cluster_template-Copies : Copies read_cluster_template (DeepCopyInto.cluster_template up)
  unfolding DeepCopyInto.cluster_template
  cluster_template-Copies x v h reads =
      Returns-both read_object_meta read_cluster_template_spec up.object_meta
        (DeepCopyInto.cluster_template_spec up)
        (λ a b. record { type_meta = x.type_meta; object = record { meta = a; spec = b } })
        (λ a a' b b' e. (ap (λ v. v.object.meta) e, ap (λ v. v.object.spec) e)) x.meta x.spec v h _
        read_cluster_template (copies.object_meta x.meta) (cluster_template_spec-Copies x.spec)
        reads (λ y z k. refl)

  machine_template_resource-Copies :
      Copies read_machine_template_resource (DeepCopyInto.machine_template_resource up)
  unfolding DeepCopyInto.machine_template_resource
  machine_template_resource-Copies x v h reads =
      Returns-both read_template_meta read_machine_spec up.template_meta DeepCopyInto.machine_spec
        (λ a b. record { meta = a; spec = b })
        (λ a a' b b' e. (ap (λ v. v.meta) e, ap (λ v. v.spec) e)) x.meta x.spec v h _
        read_machine_template_resource (copies.template_meta x.meta) (machine_spec-Copies x.spec)
        reads (λ y z k. refl)

  machine_template_spec-Copies :
      Copies read_machine_template_spec (DeepCopyInto.machine_template_spec up)
  unfolding DeepCopyInto.machine_template_spec
  machine_template_spec-Copies x v h reads =
      Returns-one read_machine_template_resource _ machine_template_resource-Copies
        (λ a. record { template = a }) (λ a b e. ap (λ v. v.template) e) x.template v h _
        read_machine_template_spec reads (λ y k. refl)

  pub machine_template-Copies : Copies read_machine_template (DeepCopyInto.machine_template up)
  unfolding DeepCopyInto.machine_template
  machine_template-Copies x v h reads =
      Returns-both read_object_meta read_machine_template_spec up.object_meta
        (DeepCopyInto.machine_template_spec up)
        (λ a b. record { type_meta = x.type_meta; object = record { meta = a; spec = b } })
        (λ a a' b b' e. (ap (λ v. v.object.meta) e, ap (λ v. v.object.spec) e)) x.meta x.spec v h _
        read_machine_template (copies.object_meta x.meta) (machine_template_spec-Copies x.spec)
        reads (λ y z k. refl)

  pub cluster_list-Copies :
      Copies (read_list Slots.cluster_items read_cluster) (DeepCopyInto.cluster_list up)
  unfolding DeepCopyInto.cluster_list
  cluster_list-Copies x v h reads =
      Returns-both read_list_meta (read_items Slots.cluster_items read_cluster) up.list_meta
        (copy_items Slots.cluster_items (DeepCopyInto.cluster up))
        (λ a b. record { type_meta = x.type_meta; list_meta = a; items = b })
        (λ a a' b b' e. (ap (λ v. v.list_meta) e, ap (λ v. v.items) e)) x.list_meta x.items v h _
        (read_list Slots.cluster_items read_cluster) (copies.list_meta x.list_meta)
        (Copies-items read_cluster (DeepCopyInto.cluster up) cluster-Copies Slots.cluster_items
          x.items)
        reads (λ y z k. refl)

  pub machine_list-Copies :
      Copies (read_list Slots.machine_items read_machine) (DeepCopyInto.machine_list up)
  unfolding DeepCopyInto.machine_list
  machine_list-Copies x v h reads =
      Returns-both read_list_meta (read_items Slots.machine_items read_machine) up.list_meta
        (copy_items Slots.machine_items (DeepCopyInto.machine up))
        (λ a b. record { type_meta = x.type_meta; list_meta = a; items = b })
        (λ a a' b b' e. (ap (λ v. v.list_meta) e, ap (λ v. v.items) e)) x.list_meta x.items v h _
        (read_list Slots.machine_items read_machine) (copies.list_meta x.list_meta)
        (Copies-items read_machine (DeepCopyInto.machine up) machine-Copies Slots.machine_items
          x.items)
        reads (λ y z k. refl)

  pub cluster_template_list-Copies :
      Copies
        (read_list Slots.cluster_template_items read_cluster_template)
        (DeepCopyInto.cluster_template_list up)
  unfolding DeepCopyInto.cluster_template_list
  cluster_template_list-Copies x v h reads =
      Returns-both read_list_meta (read_items Slots.cluster_template_items read_cluster_template)
        up.list_meta (copy_items Slots.cluster_template_items (DeepCopyInto.cluster_template up))
        (λ a b. record { type_meta = x.type_meta; list_meta = a; items = b })
        (λ a a' b b' e. (ap (λ v. v.list_meta) e, ap (λ v. v.items) e)) x.list_meta x.items v h _
        (read_list Slots.cluster_template_items read_cluster_template)
        (copies.list_meta x.list_meta)
        (Copies-items read_cluster_template (DeepCopyInto.cluster_template up)
          cluster_template-Copies Slots.cluster_template_items x.items)
        reads (λ y z k. refl)

  pub machine_template_list-Copies :
      Copies
        (read_list Slots.machine_template_items read_machine_template)
        (DeepCopyInto.machine_template_list up)
  unfolding DeepCopyInto.machine_template_list
  machine_template_list-Copies x v h reads =
      Returns-both read_list_meta (read_items Slots.machine_template_items read_machine_template)
        up.list_meta (copy_items Slots.machine_template_items (DeepCopyInto.machine_template up))
        (λ a b. record { type_meta = x.type_meta; list_meta = a; items = b })
        (λ a a' b b' e. (ap (λ v. v.list_meta) e, ap (λ v. v.items) e)) x.list_meta x.items v h _
        (read_list Slots.machine_template_items read_machine_template)
        (copies.list_meta x.list_meta)
        (Copies-items read_machine_template (DeepCopyInto.machine_template up)
          machine_template-Copies Slots.machine_template_items x.items)
        reads (λ y z k. refl)
