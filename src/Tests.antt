-- ===== src/Tests.antt =====
-- Concrete artifacts, graphs and runs, and the theorems at them.
pub mod Data
mod Projects
mod Promotions
mod Releases
mod Reports
mod Derived
mod Installs
mod Guards
mod Builds
mod Runs
mod Texts
