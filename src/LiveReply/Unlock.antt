-- ===== src/LiveReply/Unlock.antt =====
-- Edits before the peer has fetched the placeholder.
use polkadot_chat_agents.Base.{
  ℕ, zero, suc, String, Bool, true, false, not, ◌&&◌, ◌||◌, Option, none, some, List, [], ◌∷◌, ◌≡◌,
  refl, ap, sym, ◌∙◌, leb, All, All-append, if-cases,
}
use polkadot_chat_agents.LiveReply.Lane.{
  AckState, pending, acked, failed, assumed, Flight, clear, flying, resolved, Sent, progress,
  final_edit, plain, Stage, for_flight, for_ack, for_send, Final, Timing, Lane, begin, is_clear,
  is_same, is_set, flush, due_at, pace, schedule_for, schedule_flush, update, throttled_edit,
  fire_at, timer_fires, land, fail, edit_lands, edit_fails, has_text, resume, resume_with,
  settle_ack, ack_resolves, finalize, cancel_existing, nth, decide, settled, is_flying, go_from,
  go_on, final_goes, end_final, end_of, final_ends, Event, updates, throttles, fires, resumes,
  lands, fails, cancels, acks, finalizes, goes, ends, step, run,
}
use polkadot_chat_agents.LiveReply.Kept.{flush-Kept, run-failed}

-- the edits are not yet, or never, allowed
abbrev pub locked : AckState → Bool
locked pending = true
locked failed = true
locked acked = false
locked assumed = false

abbrev pub is_edit : Sent → Bool
is_edit (progress text) = true
is_edit (final_edit text) = true
is_edit (plain text) = false

-- nothing that was sent edits the placeholder
abbrev pub NoEdits : List Sent → Type 0
NoEdits = All (λ s. is_edit s ≡ false)

record IsSafe (lane : Lane) : Type 0 where
  quiet : locked lane.ack ≡ true → NoEdits lane.sent
  idle : locked lane.ack ≡ true → lane.timer ≡ none

unlocked-IsSafe : (lane : Lane) → locked lane.ack ≡ false → IsSafe lane
unlocked-IsSafe lane open_ack = record { quiet = λ h. cc; idle = λ h. cc }

module _ (timing : Timing) where
  pace-IsSafe :
      (now : ℕ) (allowed : Bool) (lane : Lane)
      → locked lane.ack ≡ false
      → IsSafe (pace timing now allowed lane)
  unfolding pace
  pace-IsSafe now allowed lane h =
      if-cases IsSafe (leb (due_at timing lane lane.last_edit_at) now) _ _
        (λ d. unlocked-IsSafe (flush allowed lane) (ap locked (flush-Kept allowed lane).0 ∙ h))
        (λ d. unlocked-IsSafe _ h)

  schedule_flush-IsSafe :
      (now : ℕ) (allowed : Bool) (lane : Lane)
      → IsSafe lane
      → IsSafe (schedule_flush timing now allowed lane)
  unfolding schedule_flush
  schedule_flush-IsSafe now allowed lane h =
      if-cases IsSafe (lane.finalized || not (is_clear lane.in_flight) || is_set lane.timer) _ _
        (λ d. h) (λ d. go lane.ack refl)
    where
      go : (a : AckState) → lane.ack ≡ a → IsSafe (schedule_for timing a now allowed lane)
      go pending e = h
      go failed e = record { quiet = h.quiet; idle = h.idle }
      go acked e = pace-IsSafe now allowed lane (ap locked e)
      go assumed e = pace-IsSafe now allowed lane (ap locked e)

  update-IsSafe :
      (now : ℕ) (allowed guarded : Bool) (text : String) (lane : Lane)
      → IsSafe lane
      → IsSafe (update timing now allowed guarded text lane)
  unfolding update
  update-IsSafe now allowed guarded text lane h =
      if-cases IsSafe lane.finalized _ _ (λ d. h)
        (λ d.
          schedule_flush-IsSafe now allowed
            (record lane { pending_text = some text; pending_guarded = guarded })
            (record { quiet = h.quiet; idle = h.idle }))

  timer_fires-IsSafe :
      (now : ℕ) (allowed : Bool) (lane : Lane) → IsSafe lane → IsSafe (timer_fires now allowed lane)
  unfolding timer_fires
  timer_fires-IsSafe now allowed lane h = go lane.timer refl
    where
      go : (o : Option ℕ) → lane.timer ≡ o → IsSafe (fire_at o now allowed lane)
      go none e = h
      go (some due) e =
          if-cases IsSafe (leb due now) _ _ (λ d. fired (locked lane.ack) refl) (λ d. h)
        where
          fired : (b : Bool) → locked lane.ack ≡ b → IsSafe (flush allowed lane)
          fired true l = absurd (cc (sym e ∙ h.idle l))
          fired false l =
              unlocked-IsSafe (flush allowed lane) (ap locked (flush-Kept allowed lane).0 ∙ l)

  lands-IsSafe : (now : ℕ) (lane : Lane) → IsSafe lane → IsSafe (edit_lands now lane)
  unfolding edit_lands
  lands-IsSafe now lane h = go lane.in_flight
    where
      go : (f : Flight) → IsSafe (land f now lane)
      go clear = h
      go resolved = h
      go (flying text) = record { quiet = h.quiet; idle = h.idle }

  fails-IsSafe : (lane : Lane) → IsSafe lane → IsSafe (edit_fails lane)
  unfolding edit_fails
  fails-IsSafe lane h = go lane.in_flight
    where
      go : (f : Flight) → IsSafe (fail f lane)
      go clear = h
      go resolved = h
      go (flying text) = record { quiet = h.quiet; idle = h.idle }

  resume-IsSafe :
      (now : ℕ) (allowed : Bool) (lane : Lane)
      → IsSafe lane
      → IsSafe (resume timing now allowed lane)
  unfolding resume
  resume-IsSafe now allowed lane h = go lane.resuming
    where
      go : (n : ℕ) → IsSafe (resume_with timing n now allowed lane)
      go zero = h
      go (suc n) =
          if-cases IsSafe (has_text lane.pending_text && not lane.finalized) _ _
            (λ d.
              schedule_flush-IsSafe now allowed (record lane { resuming = n })
                (record { quiet = h.quiet; idle = h.idle }))
            (λ d. record { quiet = h.quiet; idle = h.idle })

  acks-IsSafe :
      (ok : Bool) (now : ℕ) (allowed : Bool) (lane : Lane)
      → IsSafe lane
      → IsSafe (ack_resolves timing ok now allowed lane)
  unfolding ack_resolves
  acks-IsSafe ok now allowed lane h = go lane.ack refl ok
    where
      go :
          (a : AckState)
          → lane.ack ≡ a
          → (b : Bool) → IsSafe (settle_ack timing a b now allowed lane)
      go acked e b = h
      go failed e b = h
      go assumed e b = h
      go pending e true =
          schedule_flush-IsSafe now allowed (record lane { ack = acked })
            (record { quiet = λ l. cc; idle = λ l. cc })
      go pending e false = record {
        quiet = λ l. h.quiet (ap locked e);
        idle = λ l. h.idle (ap locked e);
      }

  finalize-IsSafe :
      (text : String) (guarded : Bool) (if_unfetched : Option String) (lane : Lane)
      → IsSafe lane
      → IsSafe (finalize text guarded if_unfetched lane).0
  unfolding finalize
  finalize-IsSafe text guarded if_unfetched lane h =
      if-cases (λ (r : Lane × Bool). IsSafe r.0) lane.finalized _ _ (λ d. h)
        (λ d. record { quiet = h.quiet; idle = λ l. refl })

  decide-IsSafe :
      (a : AckState) (n : ℕ) (allowed : Bool) (f : Final) (lane : Lane)
      → (locked a ≡ false → locked lane.ack ≡ false)
      → IsSafe lane
      → IsSafe (decide a n allowed f lane)
  decide-IsSafe pending n allowed f lane k h = h
  decide-IsSafe failed n allowed f lane k h =
      if-cases IsSafe (f.guarded && not allowed) _ _
        (λ d. record { quiet = h.quiet; idle = h.idle })
        (λ d. record {
          quiet = λ l. All-append (λ s. is_edit s ≡ false) lane.sent _ (h.quiet l) (refl, tt);
          idle = h.idle;
        })
  decide-IsSafe acked n allowed f lane k h =
      if-cases IsSafe (f.guarded && not allowed) _ _ (λ d. unlocked-IsSafe _ (k refl))
        (λ d.
          if-cases IsSafe (is_same f.text lane.last_sent_text) _ _ (λ i. unlocked-IsSafe _ (k refl))
            (λ i. unlocked-IsSafe _ (k refl)))
  decide-IsSafe assumed n allowed f lane k h =
      if-cases IsSafe (f.guarded && not allowed) _ _ (λ d. unlocked-IsSafe _ (k refl))
        (λ d.
          if-cases IsSafe (is_same f.text lane.last_sent_text) _ _ (λ i. unlocked-IsSafe _ (k refl))
            (λ i. unlocked-IsSafe _ (k refl)))

  locked-settled : (a : AckState) (timed_out : Bool) → locked (settled a timed_out) ≡ locked a
  locked-settled pending true = refl
  locked-settled pending false = refl
  locked-settled acked t = refl
  locked-settled failed t = refl
  locked-settled assumed t = refl

  goes-IsSafe :
      (n : ℕ) (timed_out allowed : Bool) (lane : Lane)
      → IsSafe lane
      → IsSafe (final_goes n timed_out allowed lane)
  unfolding final_goes
  goes-IsSafe n timed_out allowed lane h = go (nth n lane.finals)
    where
      at_stage : (s : Stage) (f : Final) → IsSafe (go_from s n timed_out allowed f lane)
      at_stage for_flight f =
          if-cases IsSafe (is_flying lane.in_flight) _ _ (λ d. h)
            (λ d. record { quiet = h.quiet; idle = h.idle })
      at_stage for_ack f =
          decide-IsSafe (settled lane.ack timed_out) n allowed f lane
            (λ l. sym (locked-settled lane.ack timed_out) ∙ l) h
      at_stage for_send f = h

      go : (o : Option Final) → IsSafe (go_on o n timed_out allowed lane)
      go none = h
      go (some f) = at_stage f.stage f

  ends-IsSafe :
      (n : ℕ) (reopen : Bool) (lane : Lane) → IsSafe lane → IsSafe (final_ends n reopen lane)
  unfolding final_ends
  ends-IsSafe n reopen lane h = go (nth n lane.finals)
    where
      at_stage : (s : Stage) → IsSafe (end_final s reopen n lane)
      at_stage for_flight = h
      at_stage for_ack = h
      at_stage for_send = record { quiet = h.quiet; idle = h.idle }

      go : (o : Option Final) → IsSafe (end_of o reopen n lane)
      go none = h
      go (some f) = at_stage f.stage

  step-IsSafe : (e : Event) (lane : Lane) → IsSafe lane → IsSafe (step timing e lane)
  unfolding step throttled_edit cancel_existing
  step-IsSafe (updates now allowed guarded text) lane h =
      update-IsSafe now allowed guarded text lane h
  step-IsSafe (throttles now allowed guarded text) lane h =
      update-IsSafe now allowed guarded text (record lane { finalized = false })
        (record { quiet = h.quiet; idle = h.idle })
  step-IsSafe (fires now allowed) lane h = timer_fires-IsSafe now allowed lane h
  step-IsSafe (resumes now allowed) lane h = resume-IsSafe now allowed lane h
  step-IsSafe (lands now) lane h = lands-IsSafe now lane h
  step-IsSafe fails lane h = fails-IsSafe lane h
  step-IsSafe cancels lane h = record { quiet = h.quiet; idle = λ l. refl }
  step-IsSafe (acks ok now allowed) lane h = acks-IsSafe ok now allowed lane h
  step-IsSafe (finalizes text guarded if_unfetched) lane h =
      finalize-IsSafe text guarded if_unfetched lane h
  step-IsSafe (goes n timed_out allowed) lane h = goes-IsSafe n timed_out allowed lane h
  step-IsSafe (ends n reopen) lane h = ends-IsSafe n reopen lane h

  run-IsSafe : (es : List Event) (lane : Lane) → IsSafe lane → IsSafe (run timing es lane)
  unfolding run
  run-IsSafe [] lane h = h
  run-IsSafe (e ∷ es) lane h = run-IsSafe es (step timing e lane) (step-IsSafe e lane h)

  -- after a failed wait, the wait is failed and nothing that was sent edits the placeholder
  abbrev pub StaysQuiet : AckState → Lane → Type 0
  StaysQuiet failed lane = (lane.ack ≡ failed) × NoEdits lane.sent
  StaysQuiet _ lane = Unit

  -- In every history of a placeholder, as long as the peer has not fetched it or where the wait for
  -- that has failed, neither a progress frame nor a final edit of it has been sent; and once the wait
  -- has failed, it is failed after all further events too, with neither sent then.
  pub run-locked :
      (es more : List Event) (text : String) (guarded : Bool) (now : ℕ)
      → locked (run timing es (begin text guarded now)).ack ≡ true
      → NoEdits (run timing es (begin text guarded now)).sent
        × StaysQuiet
            (run timing es (begin text guarded now)).ack
            (run timing more (run timing es (begin text guarded now)))
  unfolding begin
  run-locked es more text guarded now l = (safe.quiet l, go lane.ack refl)
    where
      lane : Lane
      lane = run timing es (begin text guarded now)

      safe : IsSafe lane
      safe = run-IsSafe es (begin text guarded now) (record { quiet = λ h. tt; idle = λ h. refl })

      go : (a : AckState) → lane.ack ≡ a → StaysQuiet a (run timing more lane)
      go pending e = tt
      go acked e = tt
      go assumed e = tt
      go failed e =
          let still = run-failed timing more lane e in
          (still, (run-IsSafe more lane safe).quiet (ap locked still))
