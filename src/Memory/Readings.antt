-- ===== src/Memory/Readings.antt =====
-- What the structs in memory stand for: the values of Api that are read through their pointers.
use capi_wx_one.Base.{ℕ, String, Option, some, List, Slice}
use capi_wx_one.Api.{
  ObjectMeta, Network, WxOneClusterSpec, WxOneCluster, WxOneMachineSpec, WxOneMachineStatus,
  WxOneMachine, TemplateMeta, WxOneClusterTemplateResource, WxOneClusterTemplateSpec,
  WxOneClusterTemplate, WxOneMachineTemplateResource, WxOneMachineTemplateSpec,
  WxOneMachineTemplate,
}
use capi_wx_one.Memory.Heap.{Heap, Slot, and_then, read}
use capi_wx_one.Memory.Layout.{
  TypeMeta, ObjectMetaMem, TemplateMetaMem, ListMetaMem, NetworkMem, ClusterSpecMem, ClusterMem,
  MachineSpecMem, MachineStatusMem, MachineMem, ClusterTemplateResourceMem, ClusterTemplateSpecMem,
  ClusterTemplateMem, MachineTemplateResourceMem, MachineTemplateSpecMem, MachineTemplateMem,
  ListMem,
}
use capi_wx_one.Memory.Contents.{Cell}
use capi_wx_one.Memory.Copying.{read_pointer, read_items}
use capi_wx_one.Memory.Slots

-- An object with its type.
pub record Typed (A : Type 0) : Type 0 where
  pub type_meta : TypeMeta
  pub object : A

pub record ListMeta : Type 0 where
  pub resource_version : String
  pub remaining_item_count : Option ℕ

pub record Listed (A : Type 0) : Type 0 where
  pub type_meta : TypeMeta
  pub list_meta : ListMeta
  pub items : Slice (Typed A)

abbrev pub read_both :
    {A B : Type 0} → (Heap Cell → Option A) → (Heap Cell → Option B) → Heap Cell → Option (A × B)
read_both r s h = and_then (r h) (λ a. and_then (s h) (λ b. some (a, b)))

abbrev pub read_object_meta : ObjectMetaMem → Heap Cell → Option ObjectMeta
read_object_meta x h = and_then (read Slots.texts x.finalizers h) λ fs.
    and_then (read_pointer Slots.number x.deletion_timestamp h) λ time. some (record {
      name = x.name;
      namespace = x.namespace;
      finalizers = fs;
      deletion_timestamp = time;
    })

abbrev pub read_template_meta : TemplateMetaMem → Heap Cell → Option TemplateMeta
read_template_meta x h = and_then (read_pointer Slots.dict x.labels h) λ ls.
    and_then (read_pointer Slots.dict x.annotations h)
      λ notes. some (record { labels = ls; annotations = notes })

abbrev pub read_list_meta : ListMetaMem → Heap Cell → Option ListMeta
read_list_meta x h =
    and_then (read_pointer Slots.number x.remaining_item_count h)
      λ n. some (record { resource_version = x.resource_version; remaining_item_count = n })

abbrev pub read_network : NetworkMem → Heap Cell → Option Network
read_network x h =
    and_then (read_pointer Slots.subnets x.subnets h)
      λ ns. some (record { name = x.name; subnets = ns })

abbrev pub read_cluster_spec : ClusterSpecMem → Heap Cell → Option WxOneClusterSpec
read_cluster_spec x h = and_then (read_network x.network h) λ n.
    and_then (read_pointer Slots.local_secret_reference x.credentials_secret_ref h) λ ref.
      some (record {
        project = x.project;
        availability_zone = x.availability_zone;
        network = n;
        ssh_key = x.ssh_key;
        control_plane_endpoint = x.control_plane_endpoint;
        credentials_secret_ref = ref;
      })

abbrev pub read_cluster : ClusterMem → Heap Cell → Option (Typed WxOneCluster)
read_cluster x h = and_then (read_object_meta x.meta h) λ m.
    and_then (read_cluster_spec x.spec h) λ s. some (record {
      type_meta = x.type_meta;
      object = record { meta = m; spec = s; status = x.status };
    })

abbrev pub read_machine_spec : MachineSpecMem → Heap Cell → Option WxOneMachineSpec
read_machine_spec x h =
    and_then (read_pointer Slots.text x.provider_id h)
      λ id. some (record { flavor = x.flavor; image = x.image; provider_id = id })

abbrev pub read_machine_status : MachineStatusMem → Heap Cell → Option WxOneMachineStatus
read_machine_status x h = and_then (read_pointer Slots.addresses x.addresses h) λ l. some (record {
  ready = x.ready;
  addresses = l;
  flavor = x.flavor;
  image = x.image;
  instance_ref = x.instance_ref;
  floating_ip_attachement = x.floating_ip_attachement;
})

abbrev pub read_machine : MachineMem → Heap Cell → Option (Typed WxOneMachine)
read_machine x h =
    and_then (read_both (read_object_meta x.meta) (read_machine_spec x.spec) h) λ (m, s).
      and_then (read_machine_status x.status h) λ st.
        some
          (record { type_meta = x.type_meta; object = record { meta = m; spec = s; status = st } })

abbrev pub read_cluster_template_resource :
    ClusterTemplateResourceMem → Heap Cell → Option WxOneClusterTemplateResource
read_cluster_template_resource x h =
    and_then (read_template_meta x.meta h)
      λ m. and_then (read_cluster_spec x.spec h) λ s. some (record { meta = m; spec = s })

abbrev pub read_cluster_template_spec :
    ClusterTemplateSpecMem → Heap Cell → Option WxOneClusterTemplateSpec
read_cluster_template_spec x h =
    and_then (read_cluster_template_resource x.template h) λ t. some (record { template = t })

abbrev pub read_cluster_template :
    ClusterTemplateMem → Heap Cell → Option (Typed WxOneClusterTemplate)
read_cluster_template x h = and_then (read_object_meta x.meta h) λ m.
    and_then (read_cluster_template_spec x.spec h)
      λ s. some (record { type_meta = x.type_meta; object = record { meta = m; spec = s } })

abbrev pub read_machine_template_resource :
    MachineTemplateResourceMem → Heap Cell → Option WxOneMachineTemplateResource
read_machine_template_resource x h =
    and_then (read_template_meta x.meta h)
      λ m. and_then (read_machine_spec x.spec h) λ s. some (record { meta = m; spec = s })

abbrev pub read_machine_template_spec :
    MachineTemplateSpecMem → Heap Cell → Option WxOneMachineTemplateSpec
read_machine_template_spec x h =
    and_then (read_machine_template_resource x.template h) λ t. some (record { template = t })

abbrev pub read_machine_template :
    MachineTemplateMem → Heap Cell → Option (Typed WxOneMachineTemplate)
read_machine_template x h = and_then (read_object_meta x.meta h) λ m.
    and_then (read_machine_template_spec x.spec h)
      λ s. some (record { type_meta = x.type_meta; object = record { meta = m; spec = s } })

abbrev pub read_list :
    {T A : Type 0}
    → Slot Cell (List T)
    → (T → Heap Cell → Option (Typed A))
    → ListMem
    → Heap Cell
    → Option (Listed A)
read_list slot r x h = and_then (read_list_meta x.list_meta h) λ m.
    and_then (read_items slot r x.items h)
      λ l. some (record { type_meta = x.type_meta; list_meta = m; items = l })
