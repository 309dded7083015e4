-- ===== src/T3ams/Submission.antt =====
-- bot-core/transports/t3ams/t3ams-submission.mjs: the priorities of statements, and the queue that
-- submits them one at a time.
pub mod Priority
pub mod Queue
mod Tests
