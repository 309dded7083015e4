-- ===== src/LiveReply.antt =====
-- bot-core/lib/live-reply.mjs: a message that is edited in place while a turn runs. `Lane` is one
-- lane with the events of its timer, its promises and its callers.
pub mod Lane
pub mod Kept
pub mod Unlock
pub mod Pace
pub mod Shown
pub mod Wedge
mod Tests
