-- ===== src/Health.antt =====
-- Health checks, their report and the probes (packages/health, packages/tsed-health).
pub mod Report
pub mod Registry
pub mod Probes
pub mod Shutdown
pub mod Drain
