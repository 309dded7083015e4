-- ===== src/Turns/Histories.antt =====
-- The histories of the queue.
use polkadot_chat_agents.Turns.Calls.{tally-append, expected-next}
use polkadot_chat_agents.Turns.Queue.{
  is_numbered, stopped, busy, of_peer, queue_turn, drain_on, Job, Outcome, Limits, Turns, create,
  add_to, drain, cancel_job, cancel_active, cancel_queued, stop, shutdown, begin, begin_job, end,
  new_job,
}
use polkadot_chat_agents.Base.{
  lt→ltb, leb, Bool-cases, inl, inr, ◌⊎◌, if-cases, keep_if, not, ◌&&◌, ◌<◌, map, false, true, ℕ,
  ◌+◌, String, List, [], ◌∷◌, ◌++◌, ◌≡◌, refl, arith, length, length-append,
}
use polkadot_chat_agents.Turns.Cancel.{
  cancel_queued-IsCancelled, cancel_queued-others, IsSound, create-IsSound, shutdown-IsSound,
  update_at-SameSize, active-IsSound, cancel_queued-IsSound,
}
use polkadot_chat_agents.Turns.Ends.{drained-IsSound, end-IsSound, answered-IsSound}
use polkadot_chat_agents.Turns.Books.{IsDrained, drain-IsDrained, Mirrors-add, IsBooked}

pub data Event : Type 0 where
  queues : String → Event
  begins : String → ℕ → Event
  ends : String → ℕ → Outcome → Event
  stops : String → Event
  shuts_down : Event

-- the queue and the answers after the stop of a peer
pub record StopsOnly (key : String) (s s' : Turns) : Type 0 where
  pub others : s'.queued_turns ≡ keep_if (λ j. not (of_peer key j)) s.queued_turns
  pub answers :
      s'.resolved ≡ s.resolved ++ map (λ j. (j, stopped)) (keep_if (of_peer key) s.queued_turns)
  pub slots : s'.active_turn_count ≡ s.active_turn_count

module _ (limits : Limits) where
  unfoldable pub step : Event → Turns → Turns
  unfolding queue_turn begin end stop shutdown
  step (queues key) s = queue_turn limits key s
  step (begins key number) s = begin key number s
  step (ends key number outcome) s = end limits key number outcome s
  step (stops key) s = stop key s
  step shuts_down s = shutdown s

  unfoldable pub run : List Event → Turns → Turns
  unfolding step
  run [] s = s
  run (e ∷ es) s = run es (step e s)

  begin_job-number : (number : ℕ) (j : Job) → (begin_job number j).number ≡ j.number
  begin_job-number number j =
      if-cases (λ (i : Job). i.number ≡ j.number) (is_numbered number j && not j.cancelled) _ _
        (λ y. refl) (λ n. refl)

  begin-IsSound :
      (key : String) (number : ℕ) (s : Turns)
      → IsSound limits s
      → IsSound limits (begin key number s)
  unfolding begin
  begin-IsSound key number s h =
      active-IsSound limits _ _ s
        (update_at-SameSize key (begin_job number) s.active_by_peer (begin_job-number number)) h

  stop-IsSound : (key : String) (s : Turns) → IsSound limits s → IsSound limits (stop key s)
  unfolding stop cancel_active
  stop-IsSound key s h =
      let s' = cancel_queued key s in
      active-IsSound limits _ s'.begun s'
        (update_at-SameSize key cancel_job s'.active_by_peer (λ j. refl))
        (cancel_queued-IsSound limits key s h)

  -- a job that is taken goes to the end of the queue, and the queue is drained
  added : String → Turns → Turns
  added key s = record s {
    next_number = s.next_number + 1;
    queued_turns = s.queued_turns ++ new_job limits key s ∷ [];
    queued_by_peer = add_to (new_job limits key s) s.queued_by_peer;
  }

  added-IsBooked :
      (key : String) (s : Turns)
      → IsSound limits s
      → IsBooked limits (s.queued_turns ++ new_job limits key s ∷ []) (added key s)
  unfolding added
  added-IsBooked key s h = record {
    mirror = Mirrors-add (new_job limits key s) s.queued_by_peer s.queued_turns h.booked.mirror;
    distinct = h.booked.distinct;
    counted = h.booked.counted;
    bounded = h.booked.bounded;
    answered =
        omega (arith, h.booked.answered, length-append s.queued_turns (new_job limits key s ∷ []));
    once = λ n. omega (
      arith,
      h.booked.once n,
      tally-append n s.queued_turns (new_job limits key s ∷ []),
      expected-next n (new_job limits key s) s.next_number refl,
    );
  }

  -- with room, the only job of the queue is admitted
  alone-none :
      (job : Job) (s : Turns)
      → s.queued_turns ≡ job ∷ []
      → s.shutting_down ≡ false
      → s.active_turn_count < limits.turn_limit
      → length (drain limits s).queued_turns ≡ 0
  unfolding drain drain_on
  alone-none job s one open_ room =
      rw (one, open_, lt→ltb s.active_turn_count limits.turn_limit room) refl

  queue_turn-IsSound :
      (key : String) (s : Turns) → IsSound limits s → IsSound limits (queue_turn limits key s)
  unfolding queue_turn added
  queue_turn-IsSound key s h =
      if-cases (IsSound limits) s.shutting_down _ _
        (λ y. answered-IsSound limits job stopped s refl h)
        (λ o.
          if-cases (IsSound limits)
            (leb limits.turn_limit s.active_turn_count
              && leb limits.queued_turn_limit (length s.queued_turns))
            _ _ (λ y. answered-IsSound limits job busy s refl h)
            (λ n. taken o n (Bool-cases (leb limits.turn_limit s.active_turn_count))))
    where
      job : Job
      job = new_job limits key s

      drained : IsDrained limits (s.queued_turns ++ job ∷ []) (drain limits (added key s))
      drained = drain-IsDrained limits (added key s) (added-IsBooked key s h)

      only : (q : List Job) → length q ≡ 0 → q ++ job ∷ [] ≡ job ∷ []
      only [] e = refl
      only (x ∷ xs) e = absurd (omega (arith, e))

      taken :
          s.shutting_down ≡ false
          → (leb limits.turn_limit s.active_turn_count
              && leb limits.queued_turn_limit (length s.queued_turns))
            ≡ false
          → (leb limits.turn_limit s.active_turn_count ≡ true)
            ⊎ (leb limits.turn_limit s.active_turn_count ≡ false)
          → IsSound limits (drain limits (added key s))
      taken o n (inl full) =
          drained-IsSound limits (s.queued_turns ++ job ∷ []) _ drained
            (ground (arith, n, full, length-append s.queued_turns (job ∷ [])))
      taken o n (inr room) =
          let has_room : s.active_turn_count < limits.turn_limit = ground (arith, room) in
          record {
            booked = drained.booked;
            busy = drained.busy;
            few = omega (
              arith,
              alone-none job (added key s) (only s.queued_turns (h.busy o has_room)) o has_room,
            );
          }

  step-IsSound : (e : Event) (s : Turns) → IsSound limits s → IsSound limits (step e s)
  unfolding step
  step-IsSound (queues key) s h = queue_turn-IsSound key s h
  step-IsSound (begins key number) s h = begin-IsSound key number s h
  step-IsSound (ends key number outcome) s h = end-IsSound limits key number outcome s h
  step-IsSound (stops key) s h = stop-IsSound key s h
  step-IsSound shuts_down s h = shutdown-IsSound limits s h

  run-from : (es : List Event) (s : Turns) → IsSound limits s → IsSound limits (run es s)
  unfolding run
  run-from [] s h = h
  run-from (e ∷ es) s h = run-from es (step e s) (step-IsSound e s h)

  -- In every history of a new queue, the number of active turns is that of the jobs in the map of
  -- active turns and at most `turnLimit`, at most `queuedTurnLimit` jobs wait, none waits while there
  -- is room (until the shutdown), the map of waiting jobs by peer agrees with the queue, and every
  -- call stands at exactly one place: it was answered, once, it waits, or it is active.
  pub run-IsSound : (es : List Event) → IsSound limits (run es create)
  run-IsSound es = run-from es create (create-IsSound limits)

  -- In every history of a new queue, `stop` of a peer takes exactly the jobs of the peer out of the
  -- queue, leaves the others in their order, answers each of the former with `stopped`, in order, and
  -- frees no slot of an active turn.
  pub stop-StopsOnly :
      (es : List Event) (key : String) → StopsOnly key (run es create) (stop key (run es create))
  unfolding stop cancel_active
  stop-StopsOnly es key =
      let s = run es create in
      let mirror = (run-IsSound es).booked.mirror in
      let c = cancel_queued-IsCancelled key s mirror in
      record { others = cancel_queued-others key s mirror; answers = c.log; slots = c.count }
