-- ===== src/Mirroring.antt =====
-- internal/controller/kuik: the reconcilers of ImageSetMirror and ClusterImageSetMirror.
pub mod Outcome
pub mod Deletion
pub mod Remembered
pub mod Waiting
pub mod Due
pub mod Removal
pub mod Present
pub mod Taken
pub mod Kept
pub mod Remote
pub mod Wakeup
pub mod Success
pub mod Working
pub mod Names
pub mod Merge
pub mod Clock
pub mod Images
pub mod Loops
pub mod Completion
pub mod Retention
pub mod Reconcile
pub mod Wanted
