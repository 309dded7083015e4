-- ===== src/T3ams.antt =====
-- The T3ams transport's own components.
pub mod KnownChats
pub mod Lifecycle
pub mod Submission
pub mod Context
pub mod Failure
