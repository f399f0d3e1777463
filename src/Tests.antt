-- ===== src/Tests.antt =====
-- Concrete inputs for the theorems, and the theorems at them.
pub mod Fixtures
mod Serial
mod Facts
mod Hashes
mod Stores
mod Databases
mod Taints
mod Subjects
mod Registries
mod Anchors
mod Diffs
mod Witnesses
mod Contents
mod Identities
mod Operations
