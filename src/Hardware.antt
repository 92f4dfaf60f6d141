-- ===== src/Hardware.antt =====
-- The sysfs facts and the RDMA adapter: nauti-fabric/src/hwinfo.rs.
pub mod Sysfs
pub mod Enrich
pub mod Rdma
pub mod Ports
