-- ===== src/Domain.antt =====
-- Package core/domain: one module for each of its files or parts.
pub mod Identifier
pub mod Artifact
pub mod Evidence
pub mod Check
pub mod Report
pub mod Run
pub mod Sandbox
pub mod Operation
pub mod Install
pub mod Graph
pub mod Inspected
pub mod Verified
pub mod Derivation
pub mod Snapshot
pub mod Project
pub mod ProjectBuild
