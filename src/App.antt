-- ===== src/App.antt =====
-- The package deployer/internal/controller/app: one module for each concern of its files.
pub mod Identity
pub mod Readiness
pub mod Status
pub mod Platform
pub mod PodControl
pub mod Versions
pub mod Update
pub mod Revisions
pub mod InPlaceUpdate
