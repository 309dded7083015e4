-- ===== src/Turns.antt =====
-- bot-core/lib/agent-runtime.mjs: the global queue of agent turns (`queueEngineTurn`,
-- `drainTurnQueue`, `cancelQueuedTurns`, the end of a turn, `stop` and `shutdown`). `Queue` has the
-- state and the operations.
pub mod Queue
pub mod Peers
pub mod Calls
pub mod Books
pub mod Cancel
pub mod Ends
pub mod Histories
mod Tests
