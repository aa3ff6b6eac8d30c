-- ===== src/Tests.antt =====
-- Concrete objects, and the theorems applied to them.
pub mod Fixtures
mod Transfers
mod Drives
mod Services
mod Slaves
mod Objects
pub mod Maps
pub mod Store
mod Blocks
mod Views
