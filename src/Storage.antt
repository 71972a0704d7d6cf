-- ===== src/Storage.antt =====
-- The in-memory appointment storage (server/storage.ts).
pub mod State
pub mod Conflict
pub mod Extras
pub mod Create
pub mod Table
pub mod Invariant
pub mod Creation
pub mod Patch
pub mod Change
pub mod Updating
pub mod Notify
pub mod Notifying
pub mod Series
pub mod Recurring
pub mod Service
pub mod Calls
pub mod Safety
pub mod History
pub mod Lock
