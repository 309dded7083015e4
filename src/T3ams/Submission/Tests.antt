-- ===== src/T3ams/Submission/Tests.antt =====
-- The clock and the queue at concrete inputs.
use polkadot_chat_agents.Base.{
  ◌++◌, ◌+◌, ◌/◌, ◌≤◌, String, true, false, none, some, List, [], ◌∷◌, ◌≡◌, refl, arith,
}
use polkadot_chat_agents.T3ams.Submission.Priority as Priority
use polkadot_chat_agents.T3ams.Submission.Priority.{
  Clock, Call, take_next, rejected, next_priority, AscendsFrom, ttl_seconds, run-AscendsFrom,
  next_priority-expires,
}
use polkadot_chat_agents.T3ams.Submission.Queue as Queue
use polkadot_chat_agents.T3ams.Submission.Queue.{
  Job, guarded, unguarded, Event, submitted, begins, guard_answered, send_answered, counted_out,
  taken, create,
}
use polkadot_chat_agents.T3ams.Submission.Queue.Order.{IsOrdered}
use polkadot_chat_agents.T3ams.Submission.Queue.Run.{run-IsOrdered}

abbrev clock : Clock
clock = record { priority = 7; advanced = [] }

abbrev calls : List Call
calls =
    take_next (some 1) ∷ rejected (some 371089469341700) ∷ take_next (some 1) ∷ take_next none ∷ []

issued : (Priority.run calls clock).1 ≡ 371089469341696 ∷ 371089469341701 ∷ []
unfolding Priority.run
issued = refl

run-AscendsFrom_example : AscendsFrom 7 (Priority.run calls clock).1
run-AscendsFrom_example = run-AscendsFrom calls clock

next_priority-expires_example :
    ((next_priority (some 1) clock).1 ≡ some (next_priority (some 1) clock).0.priority)
    × ((next_priority (some 1) clock).0.advanced
        ≡ clock.advanced ++ (next_priority (some 1) clock).0.priority ∷ [])
    × (1 + ttl_seconds ≤ (next_priority (some 1) clock).0.priority / 4294967296)
next_priority-expires_example = next_priority-expires 1 clock (omega arith)

abbrev one : Job String
one = record { statement = "one"; guard = guarded }

abbrev two : Job String
two = record { statement = "two"; guard = unguarded }

-- the first is fenced, the second is sent, and a third finds the queue full
abbrev events : List (Event String)
events =
    submitted one
    ∷ submitted two
    ∷ submitted one
    ∷ begins
    ∷ guard_answered (some false)
    ∷ begins
    ∷ send_answered true
    ∷ counted_out
    ∷ []

sees_second : (Queue.run events (create (some 2))).network ≡ two ∷ []
unfolding Queue.run create
sees_second = refl

counts_out : (Queue.run events (create (some 2))).pending ≡ 1
unfolding Queue.run create
counts_out = refl

run-IsOrdered_example :
    IsOrdered (taken events (create (some 2))) (Queue.run events (create (some 2)))
run-IsOrdered_example = run-IsOrdered (some 2) events
