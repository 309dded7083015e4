-- ===== src/LiveReply/Shown.antt =====
-- What the events of a placeholder send, beside the progress frames that have landed.
use polkadot_chat_agents.Base.{ℕ, ◌+◌, String, Bool, Option, none, some, List, ◌≡◌, refl, subst}
use polkadot_chat_agents.LiveReply.Lane.{
  Sent, Timing, Lane, begin, interval_for, due_at, Event, step, run,
}
use polkadot_chat_agents.LiveReply.Kept.{Landed, last_landed, run-recorded}
use polkadot_chat_agents.LiveReply.Pace.{Gain, time_of, run_from-Sends}

module _ (timing : Timing) where
  -- the interval for the frames that have landed, after the last of them
  abbrev due_after : Option ℕ → ℕ → ℕ
  due_after none count = 0
  due_after (some at) count = at + interval_for timing count

  -- what an event at the time `now` sends, where `last` is the frame that landed last
  abbrev pub SendsAfter : ℕ → Landed → List Sent → List Sent → Type 0
  SendsAfter now last before after = Gain now (due_after last.at last.count) last.text before after

  due_at-due_after :
      (lane : Lane) (at : Option ℕ) → due_at timing lane at ≡ due_after at lane.edits_sent
  due_at-due_after lane none = refl
  due_at-due_after lane (some at) = refl

  -- In every history of a placeholder, an event sends nothing, or one progress frame, or one message
  -- that is none; and where it sends a progress frame, its text differs from that of the progress
  -- frame that landed last, or of the placeholder before the first, and since then the interval for
  -- the number of frames that have landed has passed. Final edits count in neither.
  pub run-Sends :
      (es : List Event) (e : Event) (text : String) (guarded : Bool) (start : ℕ)
      → SendsAfter
          (time_of timing e)
          (last_landed timing es
            (begin text guarded start)
            (record { text = some text; at = some start; count = 0 }))
          (run timing es (begin text guarded start)).sent
          (step timing e (run timing es (begin text guarded start))).sent
  unfolding begin
  run-Sends es e text guarded start =
      let lane = run timing es (begin text guarded start) in
      subst (λ last. SendsAfter (time_of timing e) last lane.sent (step timing e lane).sent)
        (run-recorded timing es (begin text guarded start))
        (subst
          (λ due.
            Gain (time_of timing e) due lane.last_sent_text lane.sent (step timing e lane).sent)
          (due_at-due_after lane lane.last_edit_at)
          (run_from-Sends timing es e (begin text guarded start) tt))
