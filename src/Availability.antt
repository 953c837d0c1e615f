-- ===== src/Availability.antt =====
-- internal/controller/kuik: the reconciler of ClusterImageSetAvailability.
pub mod Distinct
pub mod Monitored
pub mod Sync
pub mod Candidates
pub mod Check
pub mod Reconcile
pub mod Backfill
pub mod Fairness
pub mod Outcomes
pub mod Mapper
pub mod Wakeup
pub mod Standing
pub mod Weights
pub mod Rounds
pub mod Pacing
pub mod Tracking
pub mod Restored
