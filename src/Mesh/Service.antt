-- ===== src/Mesh/Service.antt =====
-- State of the MeshService (src/mesh/mesh_service.h and mesh_service.cpp) that its threads share
-- under a mutex: every operation is one step.
pub mod Dedup
pub mod PacketId
pub mod Virtual
pub mod Identifier
pub mod Devices
