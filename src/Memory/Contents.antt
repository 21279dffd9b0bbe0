-- ===== src/Memory/Contents.antt =====
-- What a cell of the memory holds: a value of one of the types, or an array of such.
use capi_wx_one.Base.{ℕ, String, List, Dict}
use capi_wx_one.Api.{
  LocalSecretReference, ResourceReference, Project, Subnet, NetworkResource, FloatingIpResource,
  SshKey, WxOneClusterStatus, Flavor, Image, MachineAddress,
}
use capi_wx_one.Memory.Layout.{
  NetworkMem, ClusterSpecMem, ClusterMem, MachineSpecMem, MachineStatusMem, MachineMem,
  TemplateStatus, ClusterTemplateResourceMem, ClusterTemplateSpecMem, ClusterTemplateMem,
  MachineTemplateResourceMem, MachineTemplateSpecMem, MachineTemplateMem, ListMem,
}

pub data Cell : Type 0 where
  local_secret_reference : LocalSecretReference → Cell
  cluster : ClusterMem → Cell
  cluster_list : ListMem → Cell
  cluster_spec : ClusterSpecMem → Cell
  cluster_status : WxOneClusterStatus → Cell
  cluster_template : ClusterTemplateMem → Cell
  cluster_template_list : ListMem → Cell
  cluster_template_resource : ClusterTemplateResourceMem → Cell
  cluster_template_spec : ClusterTemplateSpecMem → Cell
  cluster_template_status : TemplateStatus → Cell
  flavor : Flavor → Cell
  floating_ip_resource : FloatingIpResource → Cell
  image : Image → Cell
  machine : MachineMem → Cell
  machine_list : ListMem → Cell
  machine_spec : MachineSpecMem → Cell
  machine_status : MachineStatusMem → Cell
  machine_template : MachineTemplateMem → Cell
  machine_template_list : ListMem → Cell
  machine_template_resource : MachineTemplateResourceMem → Cell
  machine_template_spec : MachineTemplateSpecMem → Cell
  machine_template_status : TemplateStatus → Cell
  network : NetworkMem → Cell
  network_resource : NetworkResource → Cell
  project : Project → Cell
  resource_reference : ResourceReference → Cell
  ssh_key : SshKey → Cell
  subnet : Subnet → Cell
  cluster_items : List ClusterMem → Cell
  cluster_template_items : List ClusterTemplateMem → Cell
  machine_items : List MachineMem → Cell
  machine_template_items : List MachineTemplateMem → Cell
  subnets : List Subnet → Cell
  addresses : List MachineAddress → Cell
  texts : List String → Cell
  text : String → Cell
  number : ℕ → Cell
  dict : Dict String → Cell
