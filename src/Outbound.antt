-- ===== src/Outbound.antt =====
-- bot-core/lib/outbound-lanes.mjs: the per-peer outbound statement lanes. `Lane` is the state of
-- one lane, `Pack` is `packBatch`, `Pump` the events of a lane, `Roster` the map of all lanes. A
-- lane's `await`s are phases: between two of them any other event of the lane can run.
pub mod Lane
pub mod Pack
pub mod Pump
pub mod Cases
pub mod Bounds
pub mod Roster
pub mod Accounting
pub mod Sealed
pub mod Lossless
pub mod Extensions
pub mod History
pub mod Stall
mod RosterTests
mod Tests
