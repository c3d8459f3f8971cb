-- ===== src/Application.antt =====
-- Package application: the use cases, over the ports that adapters implement.
pub mod Inspect
pub mod Workflow
pub mod Diagnostic
pub mod Entry
pub mod SetInspect
pub mod GraphReports
pub mod GraphInspect
pub mod Install
pub mod ProjectInspect
pub mod ProjectGuard
