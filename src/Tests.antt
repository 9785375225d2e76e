-- ===== src/Tests.antt =====
-- Runs of the model on small inputs, and each theorem with hypotheses at such an input.
mod Syntax
mod Operations
mod Nodes
mod LockStore
mod Ipam
mod Hosts
mod Plans
mod Enrollments
mod Fanouts
mod Rules
mod Networks
mod Applies
mod Policies
mod Inventories
mod Snapshots
mod Schedules
