-- ===== src/Turns/Tests.antt =====
-- Four calls of three peers with one slot and two places.
use polkadot_chat_agents.Turns.Queue.{Limits, answered, create, stop}
use polkadot_chat_agents.Turns.Cancel.{IsSound}
use polkadot_chat_agents.Turns.Histories.{
  Event, queues, begins, ends, run, run-IsSound, StopsOnly, stop-StopsOnly,
}
use polkadot_chat_agents.Base.{List, [], ◌∷◌, ◌++◌, map, ◌≡◌, refl, length, key_dec}

abbrev limits : Limits
limits = record { turn_limit = 1; queued_turn_limit = 2 }

abbrev events : List Event
events = queues "ann" ∷ begins "ann" 0 ∷ queues "bob" ∷ queues "cid" ∷ queues "bob" ∷ []

run-IsSound_example : IsSound limits (run limits events create)
run-IsSound_example = run-IsSound limits events

stop-StopsOnly_example :
    StopsOnly "bob" (run limits events create) (stop "bob" (run limits events create))
stop-StopsOnly_example = stop-StopsOnly limits events "bob"

-- the fourth call finds the queue full; the end of the first turn admits the second
counts : length (run limits events create).queued_turns ≡ 2
unfolding run create key_dec
counts = refl

after_end :
    map
      (λ j. j.peer_key)
      (run limits (events ++ ends "ann" 0 (answered "done") ∷ []) create).queued_turns
    ≡ "cid" ∷ []
unfolding run create key_dec
after_end = refl
