-- ===== src/Audit.antt =====
-- The audit chain of backend/src/audit: blocks, hashing, storage, appending and verification.
pub mod Types
pub mod Serialize
pub mod Hash
pub mod Store
pub mod Append
pub mod Status
pub mod Walk
pub mod Report
pub mod Verify
pub mod History
pub mod Receipts
mod Tests
