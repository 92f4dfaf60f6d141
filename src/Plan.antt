-- ===== src/Plan.antt =====
-- The fleet view and its planners: nauti-fabric/src/plan.rs. A host map lists its entries in the
-- ascending order of the keys in which `BTreeMap` iterates. The JSON snapshot of a request is never
-- read by a planner, and is left out.
pub mod Number
pub mod Text
pub mod View
pub mod Planner
pub mod Head
pub mod Best
pub mod Loop
pub mod Fleet
pub mod Decision
pub mod Snapshot
pub mod Intake
pub mod Slots
