-- ===== src/T3ams/Lifecycle.antt =====
-- bot-core/transports/t3ams/t3ams-message-lifecycle.mjs: last-writer-wins edits and final deletions
-- of messages whose statements arrive in any order. `Entry` is one message's record, `Store` the
-- bounded map of them.
pub mod Entry
pub mod Store
pub mod Merge
pub mod Bounds
pub mod Saved
pub mod RoundTrip
pub mod Savable
pub mod Operations
pub mod Restart
mod Tests
