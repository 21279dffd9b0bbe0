-- ===== src/Memory/DeepCopyInto.antt =====
-- DeepCopyInto of each type (zz_generated.deepcopy.go): the value that `*out` has at the end. Every
-- one begins with `*out = *in`; the assignments of plain struct fields that follow repeat it.
use capi_wx_one.Api.{
  LocalSecretReference, ResourceReference, Project, Subnet, NetworkResource, FloatingIpResource,
  SshKey, WxOneClusterStatus, Flavor, Image,
}
use capi_wx_one.Memory.Heap.{M, pure, ◌>>=◌}
use capi_wx_one.Memory.Layout.{
  ObjectMetaMem, TemplateMetaMem, ListMetaMem, NetworkMem, ClusterSpecMem, ClusterMem,
  MachineSpecMem, MachineStatusMem, MachineMem, TemplateStatus, ClusterTemplateResourceMem,
  ClusterTemplateSpecMem, ClusterTemplateMem, MachineTemplateResourceMem, MachineTemplateSpecMem,
  MachineTemplateMem, ListMem,
}
use capi_wx_one.Memory.Contents.{Cell}
use capi_wx_one.Memory.Slots
use capi_wx_one.Memory.Copying.{copy_pointer, copy_slice, copy_items}

-- DeepCopyInto of the types of other packages.
pub record Upstream : Type 0 where
  pub object_meta : ObjectMetaMem → M Cell ObjectMetaMem
  pub template_meta : TemplateMetaMem → M Cell TemplateMetaMem
  pub list_meta : ListMetaMem → M Cell ListMetaMem

unfoldable pub local_secret_reference : LocalSecretReference → M Cell LocalSecretReference
local_secret_reference x = pure x

unfoldable pub cluster_template_status : TemplateStatus → M Cell TemplateStatus
cluster_template_status x = pure x

unfoldable pub flavor : Flavor → M Cell Flavor
flavor x = pure x

unfoldable pub floating_ip_resource : FloatingIpResource → M Cell FloatingIpResource
floating_ip_resource x = pure x

unfoldable pub image : Image → M Cell Image
image x = pure x

unfoldable pub machine_template_status : TemplateStatus → M Cell TemplateStatus
machine_template_status x = pure x

unfoldable pub project : Project → M Cell Project
project x = pure x

unfoldable pub resource_reference : ResourceReference → M Cell ResourceReference
resource_reference x = pure x

unfoldable pub ssh_key : SshKey → M Cell SshKey
ssh_key x = pure x

unfoldable pub subnet : Subnet → M Cell Subnet
subnet x = pure x

unfoldable pub network_resource : NetworkResource → M Cell NetworkResource
network_resource x = pure (record x { subnet_reference = x.subnet_reference })

unfoldable pub cluster_status : WxOneClusterStatus → M Cell WxOneClusterStatus
cluster_status x = pure (record x {
  project = x.project;
  network = x.network;
  ssh_key = x.ssh_key;
  floating_ip = x.floating_ip;
})

unfoldable pub network : NetworkMem → M Cell NetworkMem
unfolding copy_slice
network x = do subnets ← copy_slice Slots.subnets x.subnets; pure (record x { subnets = subnets })

unfoldable pub cluster_spec : ClusterSpecMem → M Cell ClusterSpecMem
unfolding network copy_pointer
cluster_spec x = do
  network' ← network x.network
  ref ← copy_pointer Slots.local_secret_reference x.credentials_secret_ref
  pure (record x { network = network'; credentials_secret_ref = ref })

unfoldable pub machine_spec : MachineSpecMem → M Cell MachineSpecMem
unfolding copy_pointer
machine_spec x = do id ← copy_pointer Slots.text x.provider_id; pure (record x { provider_id = id })

unfoldable pub machine_status : MachineStatusMem → M Cell MachineStatusMem
unfolding copy_slice
machine_status x = do
  addresses ← copy_slice Slots.addresses x.addresses
  pure (record x { addresses = addresses })

module _ (up : Upstream) where
  unfoldable pub cluster : ClusterMem → M Cell ClusterMem
  unfolding cluster_spec
  cluster x = do
    meta ← up.object_meta x.meta
    spec ← cluster_spec x.spec
    pure (record x { meta = meta; spec = spec; status = x.status })

  unfoldable pub machine : MachineMem → M Cell MachineMem
  unfolding machine_spec machine_status
  machine x = do
    meta ← up.object_meta x.meta
    spec ← machine_spec x.spec
    status ← machine_status x.status
    pure (record x { meta = meta; spec = spec; status = status })

  unfoldable pub cluster_template_resource :
      ClusterTemplateResourceMem → M Cell ClusterTemplateResourceMem
  unfolding cluster_spec
  cluster_template_resource x = do
    meta ← up.template_meta x.meta
    spec ← cluster_spec x.spec
    pure (record x { meta = meta; spec = spec })

  unfoldable pub cluster_template_spec : ClusterTemplateSpecMem → M Cell ClusterTemplateSpecMem
  unfolding cluster_template_resource
  cluster_template_spec x = do
    template ← cluster_template_resource x.template
    pure (record x { template = template })

  unfoldable pub cluster_template : ClusterTemplateMem → M Cell ClusterTemplateMem
  unfolding cluster_template_spec
  cluster_template x = do
    meta ← up.object_meta x.meta
    spec ← cluster_template_spec x.spec
    pure (record x { meta = meta; spec = spec; status = x.status })

  unfoldable pub machine_template_resource :
      MachineTemplateResourceMem → M Cell MachineTemplateResourceMem
  unfolding machine_spec
  machine_template_resource x = do
    meta ← up.template_meta x.meta
    spec ← machine_spec x.spec
    pure (record x { meta = meta; spec = spec })

  unfoldable pub machine_template_spec : MachineTemplateSpecMem → M Cell MachineTemplateSpecMem
  unfolding machine_template_resource
  machine_template_spec x = do
    template ← machine_template_resource x.template
    pure (record x { template = template })

  unfoldable pub machine_template : MachineTemplateMem → M Cell MachineTemplateMem
  unfolding machine_template_spec
  machine_template x = do
    meta ← up.object_meta x.meta
    spec ← machine_template_spec x.spec
    pure (record x { meta = meta; spec = spec; status = x.status })

  unfoldable pub cluster_list : ListMem → M Cell ListMem
  unfolding cluster copy_items
  cluster_list x = do
    meta ← up.list_meta x.list_meta
    items ← copy_items Slots.cluster_items cluster x.items
    pure (record x { list_meta = meta; items = items })

  unfoldable pub machine_list : ListMem → M Cell ListMem
  unfolding machine copy_items
  machine_list x = do
    meta ← up.list_meta x.list_meta
    items ← copy_items Slots.machine_items machine x.items
    pure (record x { list_meta = meta; items = items })

  unfoldable pub cluster_template_list : ListMem → M Cell ListMem
  unfolding cluster_template copy_items
  cluster_template_list x = do
    meta ← up.list_meta x.list_meta
    items ← copy_items Slots.cluster_template_items cluster_template x.items
    pure (record x { list_meta = meta; items = items })

  unfoldable pub machine_template_list : ListMem → M Cell ListMem
  unfolding machine_template copy_items
  machine_template_list x = do
    meta ← up.list_meta x.list_meta
    items ← copy_items Slots.machine_template_items machine_template x.items
    pure (record x { list_meta = meta; items = items })
