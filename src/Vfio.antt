-- ===== src/Vfio.antt =====
-- The VFIO passthrough adapter: nauti-fabric/src/vmm/vfio.rs.
pub mod Address
pub mod Host
pub mod Passthrough
pub mod Found
pub mod Promises
