-- ===== src/Dispatcher/Tests.antt =====
-- The dispatcher at concrete inputs.
use polkadot_chat_agents.Base.{ℕ, true, false, List, [], ◌∷◌, ◌≡◌, refl, key_dec}
use polkadot_chat_agents.Base.JsMap
use polkadot_chat_agents.Dispatcher.{
  Dispatcher, create, has_tasks, or_new, Event, submitted, finished, history,
}
use polkadot_chat_agents.Dispatcher.Histories.{
  IsCounted, history-IsCounted, history-work_conserving,
}
use polkadot_chat_agents.Dispatcher.Order.{tasks_of}
use polkadot_chat_agents.Dispatcher.Fifo.{accepted, history-tasks_of}

-- one worker: the second key and the second task of the first wait, and a fifth task is refused
abbrev events : List (Event ℕ)
events =
    submitted "a" 1
    ∷ submitted "a" 2
    ∷ submitted "b" 3
    ∷ submitted "a" 4
    ∷ submitted "b" 5
    ∷ finished "a"
    ∷ []

abbrev after : Dispatcher ℕ
after = history events (create 1 3)

starts : after.started ≡ ("a", 1) ∷ ("b", 3) ∷ []
unfolding history key_dec create
starts = refl

accepts : accepted "a" events (create 1 3) ≡ 1 ∷ 2 ∷ 4 ∷ []
unfolding accepted key_dec create
accepts = refl

history-tasks_of_example : tasks_of "a" after ≡ accepted "a" events (create 1 3)
history-tasks_of_example = history-tasks_of 1 3 events "a"

history-IsCounted_example : IsCounted 1 3 after
history-IsCounted_example = history-IsCounted 1 3 events

a_rests : (or_new (JsMap.get "a" after.queues)).running ≡ false
unfolding history key_dec create
a_rests = refl

a_waits : has_tasks (or_new (JsMap.get "a" after.queues)).tasks ≡ true
unfolding history key_dec create
a_waits = refl

history-work_conserving_example : after.active ≡ 1
history-work_conserving_example = history-work_conserving 1 3 events "a" a_rests a_waits
