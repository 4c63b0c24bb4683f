-- ===== src/Examples.antt =====
-- Concrete repositories, and the theorems at them.
mod Claims
mod Records
mod Fixtures
mod Governance
mod Nodes
mod Service
mod Storage
mod Toy
mod Uploads
