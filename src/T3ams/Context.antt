-- ===== src/T3ams/Context.antt =====
-- The bounded channel context (bot-core/transports/t3ams/t3ams-channel-context.mjs).
pub mod Chat
pub mod Store
pub mod Calls
pub mod Changes
pub mod Snapshot
pub mod Parts
pub mod Fair
pub mod Rounds
pub mod Books
pub mod Global
pub mod Trimmed
pub mod Expired
pub mod Writes
pub mod Bounds
pub mod Choice
pub mod Shows
mod Tests
