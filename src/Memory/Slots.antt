-- ===== src/Memory/Slots.antt =====
-- The cells of each type.
pub mod Cluster
pub mod Machine
pub mod Shared
pub use Cluster.{
  cluster, cluster_list, cluster_spec, cluster_status, cluster_template, cluster_template_list,
  cluster_template_resource, cluster_template_spec, cluster_template_status, cluster_items,
  cluster_template_items,
}
pub use Machine.{
  machine, machine_list, machine_spec, machine_status, machine_template, machine_template_list,
  machine_template_resource, machine_template_spec, machine_template_status, machine_items,
  machine_template_items,
}
pub use Shared.{
  local_secret_reference, flavor, floating_ip_resource, image, network, network_resource, project,
  resource_reference, ssh_key, subnet, subnets, addresses, texts, text, number, dict,
}
