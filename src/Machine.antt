-- ===== src/Machine.antt =====
-- internal/controller/wxonemachine_controller.go
pub mod Stages
pub mod Removal
pub mod Reconciler
pub mod Walk
pub mod Accounting
pub mod Teardown
pub mod Images
pub mod Requests
pub mod Guarded
pub mod Patches
pub mod Identity
pub mod Finishes
pub mod Gone
pub mod Progress
