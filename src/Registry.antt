-- ===== src/Registry.antt =====
-- internal/registry: the client of the registries and the check of an image's availability.
pub mod Attempts
pub mod Client
pub mod Copy
pub mod Served
pub mod Platforms
pub mod Probe
pub mod Verdicts
pub mod Present
pub mod Ending
