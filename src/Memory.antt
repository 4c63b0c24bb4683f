-- ===== src/Memory.antt =====
-- internal/memory: the repository in memory that the services and the tests run on, method by method. A
-- method holds the repository's lock from its first read to its last write, so it is one step.
pub mod State
pub mod Audit
pub mod Idempotency
pub mod Upload
pub mod Tenant
pub mod Namespace
pub mod Recycle
pub mod Member
pub mod Maintenance
pub mod Invitation
pub mod Group
pub mod Acl
pub mod Storage
