-- ===== src/Webhook.antt =====
-- internal/webhook/core/v1/pod_webhook.go: the admission webhook that reroutes the images of a pod.
pub mod Alternatives
pub mod Candidates
pub mod Ranking
pub mod Provenance
pub mod Original
pub mod Best
pub mod Admission
pub mod Rewrite
pub mod Defaulting
pub mod StaleStatus
pub mod Clearing
pub mod Frame
pub mod Confined
pub mod Tracked
pub mod Collected
pub mod Preserved
pub mod DryRun
pub mod SecretNames
pub mod Routed
