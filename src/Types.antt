-- ===== src/Types.antt =====
-- The data that the parts of the program exchange (internal/drive/types.go, ports.go), a module for each
-- group of types. Instants are natural numbers, with 0 for the zero `time.Time`; a `*T` is an `Option`.
pub mod Access
pub mod Idempotency
pub mod Invitation
pub mod Group
pub mod Node
pub mod Upload
pub mod Storage
