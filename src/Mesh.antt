-- ===== src/Mesh.antt =====
-- The mesh network: mesh.go, mesh_handler.go and mesh_util.go.
pub mod Split
pub mod Transfer
pub mod Ops
pub mod Handlers
pub mod Keeps
