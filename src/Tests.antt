-- ===== src/Tests.antt =====
-- Concrete fabrics, requests and fleets, and the theorems applied to them.
pub mod Samples
mod Fabrics
pub mod Requests
pub mod Fleets
mod Stores
mod Machines
mod Entropy
mod Clients
mod Hosts
mod Snapshots
mod Pumps
mod Datasets
mod Configs
