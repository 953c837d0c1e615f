-- ===== src/Examples.antt =====
-- Concrete inputs, and the theorems applied to them.
mod Inputs
mod Servers
mod Annotations
mod Routing
mod Reconciling
mod Admitting
mod Monitoring
mod Reports
mod Composing
mod Copying
mod Waking
mod Starting
