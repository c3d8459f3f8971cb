-- ===== src/Lib.antt =====
-- Heliopause admits packages of several ecosystems only behind an inspection: an artifact is resolved
-- to an exact identity, acquired, verified, inspected (statically and in a sandbox), judged by a
-- policy, and, for an install, promoted with every dependency of its locked graph or not at all. This
-- library models the core of it, the domain types whose constructors carry these rules, the policies,
-- and the workflows of an inspection and of an install.
--
-- Base: shared lists, Boolean tests, results, equality, sorting, and the pigeonhole that turns a count
--   of distinct keys into coverage.
-- Text: Go's strings as lists of bytes (numbers below 256 where that matters): prefixes, the decoding
--   of UTF-8, the base 32 of identifiers, and the two regular expressions of internal/core/domain as
--   matchers.
-- Domain: internal/core/domain.
--   Identifier: identifier.go. Artifact: artifact.go, resolved.go. Evidence: evidence.go.
--   Check and Report: check.go. Run: run.go. Sandbox: sandbox.go. Operation: operation.go.
--   Install and Graph: install.go. Inspected: verified_set.go, and DependencyResolution of install.go.
--   Verified: manifest.go. Derivation: derivation.go. Snapshot: project_snapshot.go.
--   Project: project_verified_set.go, project_staged_set.go, and project_update.go in Project/Update.
--   ProjectBuild: project_build.go.
--   The modules below these state what their constructors promise.
-- Policy: internal/policy, a module for each of m1.go to m4.go and m6.go.
-- Application: internal/application. Inspect models inspect.go over its ports. Workflow is what the
--   install workflows are written in: functions of a world that holds the history of calls (a port may
--   answer by all calls before), the number of runs created, and the runs that are out of use; its
--   module Ensures has the rules by which a workflow is proved. Diagnostic: install.go. Entry,
--   SetInspect, GraphInspect (its reports are in GraphReports) and Install: install_inspect.go, for one
--   dependency, for all nodes in turn with the artifacts derived from them, for a whole graph at once,
--   and for the request; Install has install_promote.go too. A run is put away where the code drops it, finalized or not.
--   ProjectInspect: project_inspect.go. ProjectGuard: project_snapshot.go and project_update.go, with
--   the services of cargo.go and gomodule.go, over ports of their own.
-- Tests: a small npm install and a project, and the theorems at them.
--
-- A struct is a record, a string type with constants a data type with `other` for further strings.
-- `New…` is `new_…` and returns a Result, whose error is a fixed text in place of Go's formatted one. A
-- getter is the record's field; the copies that it makes are not visible in values. A method that
-- changes its receiver returns the changed one. A map with one use is the list of its keys, or a
-- lookup in the list that fills it. `sort.Slice` by a Boolean order is an insertion sort. Unsigned
-- counts are ℕ: those that are added stay below 10000. Ports, readers and SHA-256 are parameters.
--
-- The one loop without a structural argument is the breadth-first search of the dependency graph. It
-- runs on fuel, one more than the number of edges: a node is queued once, as the target of an edge.
--
-- Not modelled: the JSON text of the observation summary, the fifth policy, which reads the
-- profiles of internal/artifact/pypi, the guarded builds and terraform.go of internal/application,
-- contexts that are nil or cancelled but in inspect.go, and the adapters, which are file formats,
-- system calls and network I/O behind the ports.
pub mod Base
pub mod Text
pub mod Domain
pub mod Policy
pub mod Application
pub mod Tests
