-- ===== src/Api.antt =====
-- The API objects of api/v1beta1, and the fields that the controllers read of the Cluster API's
-- own objects (Cluster, Machine, Secret), which another module declares.
pub mod Cluster
pub mod Machine
pub mod Templates
pub mod Equality
pub mod Upstream
pub use Cluster.*
pub use Machine.*
pub use Templates.*
pub use Upstream.*
