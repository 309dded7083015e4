-- ===== src/Lib.antt =====
-- The cores of polkadot-chat-agents, a runtime that connects AI agents to Polkadot's chat apps: the
-- queues, the bounded stores and the reconciliation of messages between the transports and the
-- agents. The parts are independent modules of the program; the runtimes (bot-core/index.mjs and
-- bot-core/transports/t3ams/index.mjs) own one of each and pass events to them. An inbound statement
-- goes through the message lifecycle and the index of chats, its work through the keyed dispatcher;
-- replies leave through the outbound lanes or, for T3ams, through the serialized submitter under the
-- priorities of the priority clock; saved state goes through the state store. A turn of an agent waits
-- in the global queue of turns, and a live reply shows its progress. The peer clock stamps the replies,
-- the slash commands choose a peer's model and project, the channel context gives a turn the recent
-- messages of its channel, and the tool policy bounds what an agent may use.
--
-- - Base: shared names. Base.JsMap is JavaScript's `Map` with string keys as an association list in
--   insertion order; `set` writes in place or appends. Base.MapSums sums over the values of a map.
-- - Outbound: bot-core/lib/outbound-lanes.mjs. `Lane` is a lane (`queue`, `current`, `inFlight`,
--   `graceTimer`), `Pack.pack_batch` is `packBatch`, `Pump` has `enqueue`, `onAck`, `expire`, the
--   grace timer and the phases of `pump`, one between any two of its awaits; `step` runs one event,
--   and any event may come in any phase. `Roster` is the map of lanes with `laneFor`. The encoder and
--   the maker of request ids are fields of `Env`; the answer of `submitPayload` is an event.
--   `Extensions.extended` counts the extensions of a statement over a history.
-- - T3ams.KnownChats: bot-core/transports/t3ams/t3ams-known-chats.mjs. `note` and `trim`; the
--   callbacks `isProtected` and `isValid` are arguments.
-- - T3ams.Lifecycle: bot-core/transports/t3ams/t3ams-message-lifecycle.mjs. `Entry` is a record,
--   `Store.apply_message`, `Store.apply_operation` and `Store.clear_chat` are the operations. The ids
--   of an event are taken as `normalizedBase` gives them, the clock as one reading for a call.
--   `Saved` is the state file, `Restart` a history of calls before it.
-- - T3ams.Submission: bot-core/transports/t3ams/t3ams-submission.mjs. `Priority` is the priority
--   clock, `Queue` the serialized submitter, whose promises are events.
-- - T3ams.Context: bot-core/transports/t3ams/t3ams-channel-context.mjs. `Chat` has a chat and its
--   trimming, `Store` the map of chats with the loops over all of them, `Calls`, `Changes` and
--   `Snapshot` the calls. The loops over senders and records take the number of the records as
--   fuel; each round removes one.
-- - T3ams.Failure: bot-core/transports/t3ams/t3ams-delivery-failure.mjs. `next_failure` is
--   `nextT3amsDeliveryFailure`; the hash of an error is an argument.
-- - Dispatcher: bot-core/lib/keyed-dispatcher.mjs. `run`, `drain` and `finish`, the `finally` of a
--   task.
-- - PeerClock: bot-core/lib/peer-clock.mjs. `observe`, `next` and the bounded map of floors; the
--   present time is an argument.
-- - ToolPolicy: bot-core/lib/tool-policy.mjs. `canonical_capabilities` is `canonicalCapabilities`
--   over values that are already split and trimmed.
-- - LiveReply: bot-core/lib/live-reply.mjs. `Lane` is the lane of one reply, with `flush`,
--   `scheduleFlush`, `finalize` and the stages that a final edit waits in; `step` runs one event.
--   `Kept.last_landed` counts the progress frames that have landed over a history.
-- - Turns: bot-core/lib/agent-runtime.mjs, its global queue of turns. `Queue` has the state, the two
--   maps of jobs by peer and the operations; `Histories` runs events.
-- - Environment: bot-core/lib/agent-runtime.mjs, `buildAgentEnvironment`. The regular expressions are
--   fields of `Patterns`.
-- - Commands: bot-core/lib/commands.mjs. `handle` is the handler of a command, over the maps of the
--   peers' models, efforts and projects, with `setPeerProject` and `trimOverrides` of
--   bot-core/lib/agent-runtime.mjs; what else it calls outside the file are fields of `Config`.
-- - StateStore: bot-core/lib/session-store.mjs. `save`, `flush`, the timer, and the drain with the
--   phases between its awaits; the write to the disk answers by an event. The
--   calls of `flush` are counted until they are answered.
--
-- Numbers are natural numbers; byte lengths are those of UTF-8. A loop is a recursion on its list;
-- the loop of `trim` over the chats takes as fuel the number of entries, of which each round deletes
-- one. Histories are lists of events of any length.
--
-- Not modelled: reading and printing of commands and files, the network clients, the agents'
-- processes, and everything that only passes calls on to a library. The promises that a part hands
-- out are seen as a log of their outcomes.
pub mod Base
pub mod T3ams
pub mod Outbound
pub mod Dispatcher
pub mod StateStore
pub mod PeerClock
pub mod ToolPolicy
pub mod LiveReply
pub mod Commands
pub mod Turns
pub mod Environment
