-- ===== src/Examples.antt =====
-- Runs of the theorems on small concrete configurations.
mod Configs
mod Balancing
mod Auditing
mod Admin
mod Remote
mod Reconciling
mod Breaking
mod Probing
mod Tracking
mod Limiting
mod Gating
mod Sorting
mod Routing
mod Settings
mod Proxying
