-- ===== src/Tests.antt =====
-- Concrete runs, and the theorems at concrete inputs.
mod Fixtures
mod Journals
mod Installs
mod Paths
mod Manifests
mod Updates
mod Policies
mod Packages
mod Shares
mod Helpers
mod Releases
mod Interfaces
