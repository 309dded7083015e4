-- ===== src/Dispatcher/Histories.antt =====
-- Histories of the dispatcher, from a new one.
use polkadot_chat_agents.Base.{
  ◌∙◌, max, ◌≤◌, ℕ, String, true, false, List, [], ◌∷◌, ◌≡◌, ◌≢◌, refl, arith, inl, inr, ◌⊎◌,
}
use polkadot_chat_agents.Base.JsMap
use polkadot_chat_agents.Base.JsMap.{JsMap}
use polkadot_chat_agents.Dispatcher.Sums.{sum}
use polkadot_chat_agents.Dispatcher.Sound.{task_count, busy_count, listed}
use polkadot_chat_agents.Dispatcher.Steps.{Sound}
use polkadot_chat_agents.Dispatcher.Limits.{history-SameLimits}
use polkadot_chat_agents.Dispatcher.Calls.{run-Sound, finish-Sound}
use polkadot_chat_agents.Dispatcher.{
  Dispatcher, create, has_tasks, or_new, Event, submitted, finished, step, history,
}

nothing_listed : (key : String) (keys : List String) → keys ≡ [] → listed key keys ≢ true
unfolding listed
nothing_listed key [] e = λ p. cc
nothing_listed key (x ∷ xs) e = cc

module _ {T : Type 0} where
  step-Sound : (e : Event T) (s : Dispatcher T) → Sound s → Sound (step e s)
  unfolding step
  step-Sound (submitted key task) s h = run-Sound key task s h
  step-Sound (finished key) s h = finish-Sound key s h

  create-Sound : (concurrency max_queued : ℕ) → Sound (create {T = T} concurrency max_queued)
  unfolding create sum
  create-Sound concurrency max_queued = record {
    loop = record {
      counts = record { distinct = tt; tasks = refl; busy = refl };
      awake = λ k. unfold JsMap.get in record { marked = λ r. cc; ready = λ r t. cc };
      queued_le = omega arith;
      active_le = omega arith;
    };
    full = inl refl;
  }

  history-Sound : (es : List (Event T)) (s : Dispatcher T) → Sound s → Sound (history es s)
  unfolding history
  history-Sound [] s h = h
  history-Sound (e ∷ es) s h = history-Sound es (step e s) (step-Sound e s h)

  -- what the invariant says of a key
  work_conserving :
      (key : String) (s : Dispatcher T)
      → Sound s
      → (or_new (JsMap.get key s.queues)).running ≡ false
      → has_tasks (or_new (JsMap.get key s.queues)).tasks ≡ true
      → s.active ≡ s.worker_limit
  work_conserving key s h rest waits = go h.full
    where
      go : (s.ready_keys ≡ []) ⊎ (s.active ≡ s.worker_limit) → s.active ≡ s.worker_limit
      go (inr busy) = busy
      go (inl none_ready) = absurd (
          nothing_listed key s.ready_keys none_ready
            ((h.loop.awake key).marked ((h.loop.awake key).ready rest waits)))

  abbrev pub IsCounted : ℕ → ℕ → Dispatcher T → Type 0
  IsCounted concurrency max_queued s =
      (s.queued ≡ sum task_count s.queues)
      × (s.queued ≤ max 1 max_queued)
      × (s.active ≡ sum busy_count s.queues)
      × (s.active ≤ max 1 concurrency)

  -- In every history of a new dispatcher, `queued` is the number of the tasks that wait at all keys
  -- and at most the backlog's limit, and `active` is the number of the keys with a running task and
  -- at most the worker limit.
  pub history-IsCounted :
      (concurrency max_queued : ℕ) (es : List (Event T))
      → IsCounted concurrency max_queued (history es (create concurrency max_queued))
  unfolding create
  history-IsCounted concurrency max_queued es =
      let start = create {T = T} concurrency max_queued in
      let h = history-Sound es start (create-Sound concurrency max_queued) in
      let l = history-SameLimits es start in
      (
        h.loop.counts.tasks,
        omega (arith, h.loop.queued_le, l.1),
        h.loop.counts.busy,
        omega (arith, h.loop.active_le, l.0),
      )

  -- In every history of a new dispatcher, a key with waiting tasks has a running task, or all
  -- workers are at work.
  pub history-work_conserving :
      (concurrency max_queued : ℕ) (es : List (Event T)) (key : String)
      → (or_new (JsMap.get key (history es (create concurrency max_queued)).queues)).running ≡ false
      → has_tasks (or_new (JsMap.get key (history es (create concurrency max_queued)).queues)).tasks
        ≡ true
      → (history es (create {T = T} concurrency max_queued)).active ≡ max 1 concurrency
  unfolding create
  history-work_conserving concurrency max_queued es key rest waits =
      let start = create {T = T} concurrency max_queued in
      let h = history-Sound es start (create-Sound concurrency max_queued) in
      work_conserving key (history es start) h rest waits ∙ (history-SameLimits es start).0
