-- ===== src/CloudInit.antt =====
-- cloudInitYAMLToJSON and addPersistentLoAddressToCloudInit of
-- internal/controller/wxonemachine_controller.go
pub mod Text
pub mod Convert
pub use Convert.{cloud_init_yaml_to_json, add_persistent_lo_address_to_cloud_init}
pub mod Added
pub mod Trimmed
