-- ===== src/Mesh.antt =====
-- The mesh behind the devices (src/mesh/).
pub mod NodeId
pub mod NodeDb
pub mod Service
pub mod DbSync
mod Tests
