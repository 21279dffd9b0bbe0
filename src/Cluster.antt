-- ===== src/Cluster.antt =====
-- internal/controller/wxonecluster_controller.go
pub mod Stages
pub mod Reconciler
pub mod Keeps
pub mod Accounting
pub mod Ready
pub mod Deletion
pub mod Admitted
pub mod Settled
pub mod Unauthenticated
pub mod Progress
pub mod Finishes
pub mod Guarded
pub mod Calls
