-- ===== src/Outbound/History.antt =====
-- Whole histories of a lane, from the empty lane.
use polkadot_chat_agents.Base.{ℕ, ◌+◌, ◌≤◌, ◌<◌, Option, none, some, List, [], ◌∷◌, ◌≡◌, arith}
use polkadot_chat_agents.Outbound.Lane.{Current, Env, Lane, new_lane}
use polkadot_chat_agents.Outbound.Pump.{base_of, Event, submit_resolved, step}
use polkadot_chat_agents.Outbound.Bounds.{IsBounded, FitsSlot}
use polkadot_chat_agents.Outbound.Extensions.{
  Counts, CountsSlot, step-Counts, extended, extensions_after,
}
use polkadot_chat_agents.Outbound.Bounds.Steps.{step-IsBounded}
use polkadot_chat_agents.Outbound.Accounting.{tally, deliveries, in_flight, IsAccounted, IsRaced}
use polkadot_chat_agents.Outbound.Accounting.Steps.Events.{step-IsAccounted}

module _ {O : Type 0} (env : Env O) where
  unfoldable pub run : List (Event O) → Lane O → Lane O
  unfolding step
  run [] lane = lane
  run (e ∷ events) lane = run events (step env e lane)

  -- no submit of the history resolves as an extension after its base left the slot
  abbrev pub NeverRaces : List (Event O) → Lane O → Type 0
  NeverRaces [] lane = Unit
  NeverRaces (e ∷ events) lane =
      ((now : ℕ) → e ≡ submit_resolved now → ¬ IsRaced lane) × NeverRaces events (step env e lane)

  pub run-IsAccounted :
      (events : List (Event O)) (lane : Lane O)
      → NeverRaces events lane
      → IsAccounted lane
      → IsAccounted (run events lane)
  unfolding run
  run-IsAccounted [] lane safe h = h
  run-IsAccounted (e ∷ events) lane safe h =
      run-IsAccounted events (step env e lane) safe.1 (step-IsAccounted env e lane safe.0 h)

  pub new_lane-IsAccounted : IsAccounted (new_lane {O = O})
  unfolding tally deliveries
  new_lane-IsAccounted = record { once = λ n. ground arith; clean = tt; flight = tt }

  -- In every history of a lane in which no submit resolves as an extension after its base left the
  -- slot, each entry that the lane accepted is at exactly one place: it is queued, new in the batch
  -- in flight, part of the statement in the slot, or its `delivered` promise was resolved once.
  pub run-conserves :
      (events : List (Event O)) (n : ℕ)
      → NeverRaces events new_lane
      → n < (run events new_lane).next_serial
      → tally n (run events new_lane).queue
          + tally n (base_of (run events new_lane).current)
          + deliveries n (run events new_lane).log
          + in_flight n (run events new_lane).phase
        ≡ 1
  run-conserves events n safe h =
      let all = run-IsAccounted events new_lane safe new_lane-IsAccounted in
      ground (arith, all.once n)

  run_from-IsBounded :
      (events : List (Event O)) (lane : Lane O)
      → IsBounded env lane
      → IsBounded env (run events lane)
  unfolding run
  run_from-IsBounded [] lane h = h
  run_from-IsBounded (e ∷ events) lane h =
      run_from-IsBounded events (step env e lane) (step-IsBounded env e lane h)

  run-Counts :
      (events : List (Event O)) (lane : Lane O) (n : ℕ)
      → Counts lane n
      → Counts (run events lane) (extended env events lane n)
  unfolding run extended
  run-Counts [] lane n h = h
  run-Counts (e ∷ events) lane n h =
      run-Counts events (step env e lane) (extensions_after e lane n) (step-Counts env e lane n h)

  -- how often the statement in the slot, where there is one, has been extended
  abbrev pub ExtendedAtMost : ℕ → Option (Current O) → ℕ → Type 0
  ExtendedAtMost most none n = Unit
  ExtendedAtMost most (some c) n = n ≤ most

  -- In every history of a lane, whatever its order of events, the bounds hold: the backlog stays
  -- within `maxQueued`, a payload in flight fits `maxPayloadBytes`, the entries of a statement share
  -- its flag, and the statement in the slot was extended at most `maxExtensions` times, by its
  -- counter and by the count of the submits that resolved as extensions since the last that did not.
  pub run-IsBounded :
      (events : List (Event O))
      → IsBounded env (run events new_lane)
        × ExtendedAtMost env.max_extensions
            (run events new_lane).current
            (extended env events new_lane 0)
  run-IsBounded events =
      (all, go (run events new_lane).current all.slot (run-Counts events new_lane 0 tt))
    where
      all : IsBounded env (run events new_lane)
      all =
          run_from-IsBounded events new_lane
            (record { backlog = omega arith; slot = tt; flight = tt })

      go :
          (slot : Option (Current O))
          → FitsSlot env slot
          → CountsSlot slot (extended env events new_lane 0)
          → ExtendedAtMost env.max_extensions slot (extended env events new_lane 0)
      go none fits counted = tt
      go (some c) fits counted = omega (arith, fits.0, counted)
