-- ===== src/Dispatcher/Limits.antt =====
-- The limits of the dispatcher over its calls.
use polkadot_chat_agents.Base.{
  suc, ◌-◌, String, false, Option, none, some, List, [], ◌∷◌, ◌≡◌, refl, ◌∙◌, arith, leb, ltb,
  Bool-cases, inl, inr,
}
use polkadot_chat_agents.Base.JsMap
use polkadot_chat_agents.Base.JsMap.{JsMap}
use polkadot_chat_agents.Dispatcher.{
  KeyQueue, Dispatcher, make_ready, dispatch, take_ready, drain_loop, drain, or_new, push, run,
  settle, finish_of, finish, Event, submitted, finished, step, history,
}

module _ {T : Type 0} where
  abbrev pub SameLimits : Dispatcher T → Dispatcher T → Type 0
  SameLimits s s' = (s'.worker_limit ≡ s.worker_limit) × (s'.queue_limit ≡ s.queue_limit)

  dispatch-SameLimits :
      (key : String) (q : KeyQueue T) (tasks : List T) (s : Dispatcher T)
      → SameLimits s (dispatch key q tasks s)
  unfolding dispatch
  dispatch-SameLimits key q [] s = (refl, refl)
  dispatch-SameLimits key q (t ∷ ts) s = ground arith

  take_ready-SameLimits :
      (key : String) (o : Option (KeyQueue T)) (s : Dispatcher T)
      → SameLimits s (take_ready key o s)
  unfolding take_ready
  take_ready-SameLimits key none s = (refl, refl)
  take_ready-SameLimits key (some q) s = dispatch-SameLimits key q q.tasks s

  drain_loop-SameLimits : (keys : List String) (s : Dispatcher T) → SameLimits s (drain_loop keys s)
  unfolding drain_loop
  drain_loop-SameLimits [] s = (refl, refl)
  drain_loop-SameLimits (key ∷ rest) s =
      let head = take_ready-SameLimits key (JsMap.get key s.queues) s in
      let later = drain_loop-SameLimits rest (take_ready key (JsMap.get key s.queues) s) in
      elim (Bool-cases (ltb s.active s.worker_limit)) [
        | inl free ↦ rw (free, drain_loop) (later.0 ∙ head.0, later.1 ∙ head.1)
        | inr busy ↦ rw (busy, drain_loop) (refl, refl)
      ]

  make_ready-SameLimits :
      (key : String) (q : KeyQueue T) (s : Dispatcher T) → SameLimits s (make_ready key q s)
  unfolding make_ready
  make_ready-SameLimits key q s = ground arith

  settle-SameLimits :
      (key : String) (q : KeyQueue T) (s : Dispatcher T) → SameLimits s (settle key q s)
  unfolding settle make_ready
  settle-SameLimits key q s = ground arith

  drain-SameLimits : (s t : Dispatcher T) → SameLimits s t → SameLimits s (drain t)
  unfolding drain
  drain-SameLimits s t h = let d = drain_loop-SameLimits t.ready_keys t in (d.0 ∙ h.0, d.1 ∙ h.1)

  run-SameLimits : (key : String) (task : T) (s : Dispatcher T) → SameLimits s (run key task s).0
  unfolding run
  run-SameLimits key task s = elim (Bool-cases (leb s.queue_limit s.queued)) [
    | inl full ↦ rw full (refl, refl)
    | inr free ↦
        let q = push task (or_new (JsMap.get key s.queues)) in
        let s' : Dispatcher T = record s { queued = suc s.queued } in
        rw free (drain-SameLimits s (make_ready key q s') (make_ready-SameLimits key q s'))
  ]

  finish-SameLimits : (key : String) (s : Dispatcher T) → SameLimits s (finish key s)
  finish-SameLimits key s = unfold finish in go (JsMap.get key s.queues)
    where
      go : (o : Option (KeyQueue T)) → SameLimits s (finish_of key o s)
      go none = (refl, refl)
      go (some q) = elim (Bool-cases q.running) [
        | inl busy ↦
            rw (busy, finish_of)
              (drain-SameLimits s _ (
                settle-SameLimits key (record q { running = false })
                  (record s { active = s.active - 1 })))
        | inr idle ↦ rw (idle, finish_of) (refl, refl)
      ]

  step-SameLimits : (e : Event T) (s : Dispatcher T) → SameLimits s (step e s)
  unfolding step
  step-SameLimits (submitted key task) s = run-SameLimits key task s
  step-SameLimits (finished key) s = finish-SameLimits key s

  pub history-SameLimits : (es : List (Event T)) (s : Dispatcher T) → SameLimits s (history es s)
  unfolding history
  history-SameLimits [] s = (refl, refl)
  history-SameLimits (e ∷ es) s =
      let h = step-SameLimits e s in
      let d = history-SameLimits es (step e s) in (d.0 ∙ h.0, d.1 ∙ h.1)
