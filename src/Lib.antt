-- ===== src/Lib.antt =====
-- Asteria Drive: the file service, its in-memory repository and storage, and its maintenance loop.
--
-- The program keeps tenants, members, a tree of nodes per tenant, upload sessions that turn into files, a
-- recycle bin, invitations, groups, access lists, an audit log, idempotency claims and maintenance leases.
-- `internal/drive` declares the data and the ports; `internal/memory` implements the repository port, under
-- one mutex, so that each method is one step on one state. Here a method is a function from the repository
-- to its result and the repository that it leaves, errors included. The service checks a request and calls
-- the repository and the storage provider in turn: its methods are actions on a world of both, over any
-- record of provider operations, and the in-memory storage is one such record. The maintenance loop calls
-- the same two for the claims that it leases.
--
-- Where each part stands:
--   * Types and its modules: the structs and constants of internal/drive/types.go and ports.go.
--     Types.Storage: the storage provider's port and types. Result: internal/drive/errors.go, without the
--     message of an error. Platform: what the code calls for hashes, text, base64, JSON and links, as a
--     record that the definitions take.
--   * Validation and Validation.Names: internal/drive/util.go and idempotency.go. Text: the string
--     functions of the standard library that the code calls, and the size of the JSON text of a map.
--   * Dict: Go's maps, as association lists in the order of their iteration. Prelude: tests, lists, and the
--     64-bit revision with its wrap-around.
--   * Memory.State: the struct `Repository` of internal/memory/repository.go and the lookups its methods
--     share. Memory.Tenant, Memory.Namespace, Memory.Upload and Memory.Recycle: the rest of that file.
--     Memory.Member: its members, with those of internal/memory/governance.go.
--   * Memory.Audit, Memory.Invitation, Memory.Group, Memory.Acl: internal/memory/governance.go.
--   * Memory.Idempotency: internal/memory/idempotency.go. Memory.Maintenance: internal/memory/maintenance.go.
--   * Memory.Storage: internal/memory/storage.go.
--   * Service, with Service.Steps (actions), Service.Nodes, Service.Creation, Service.Uploads, Service.Parts,
--     Service.Completion, Service.Publishing and Service.Tenants: internal/drive/service.go.
--     Service.Governance: internal/drive/governance_service.go. Service.Cursor: internal/drive/cursor.go.
--   * Loop, Loop.Uploads, Loop.Recycle, Loop.Rounds: internal/maintenance/loop.go.
--   * The modules below each of these hold its invariants and laws; Examples has concrete repositories.
-- A function has the name of its Go function in snake case: `CommitUpload` is `commit_upload`.
--
-- Choices: a time is a number of nanoseconds, 0 for the zero time. A revision is a 64-bit integer with
-- wrap-around. The loops that follow parents (`isDescendant`, `authorizeNodeLocked`) run for at most one step
-- more than there are nodes, since a way up that meets no node twice has no more steps than that; where
-- parents form a cycle the Go loops do not end. The loop of `activeSubtree` runs as often as there are nodes,
-- and once more. A fresh identifier and the request's identifier come with a call (`CallContext`); a call of
-- the service (`Call`) also carries its readings of the clock and the identifiers that it draws, by number.
-- The check of a part signature's digest is an argument. A page limit is a natural number, as the handlers
-- pass it on.
--
-- Not modelled: PostgreSQL, S3, HTTP, authentication, configuration and tooling; the loop's goroutine, its
-- timer and its metrics. Contexts, copies of slices and the mutex have no counterpart.
mod Examples
pub mod Dict
pub mod Loop
pub mod Memory
pub mod Platform
pub mod Prelude
pub mod Result
pub mod Service
pub mod Text
pub mod Types
pub mod Validation
