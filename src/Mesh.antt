-- ===== src/Mesh.antt =====
-- pkg/mesh: quarantine of workloads.
pub mod Interface
pub mod Client
pub mod Adapters
pub mod Isolation
pub mod Order
