-- ===== src/LiveReply/Kept.antt =====
-- What the events of a lane leave as it is: a failed wait for the ACK, and the record of the progress
-- frame that landed last.
use polkadot_chat_agents.Base.{
  ℕ, zero, suc, String, Bool, true, false, not, ◌&&◌, ◌||◌, Option, none, some, List, [], ◌∷◌, ◌≡◌,
  refl, ap, ◌∙◌, leb, if-cases,
}
use polkadot_chat_agents.LiveReply.Lane.{
  AckState, pending, acked, failed, assumed, Flight, clear, flying, resolved, Stage, for_flight,
  for_ack, for_send, Final, Timing, Lane, is_clear, is_same, is_set, flush_text, flush, due_at,
  pace, schedule_for, schedule_flush, update, throttled_edit, fire_at, timer_fires, land, fail,
  edit_lands, edit_fails, has_text, resume, resume_with, settle_ack, ack_resolves, finalize,
  cancel_existing, nth, decide, settled, is_flying, go_from, go_on, final_goes, end_final, end_of,
  final_ends, Event, updates, throttles, fires, resumes, lands, fails, cancels, acks, finalizes,
  goes, ends, step, run,
}

-- the text of a progress frame, the time at which it landed, and how many had landed with it
pub record Landed : Type 0 where
  pub text : Option String
  pub at : Option ℕ
  pub count : ℕ

-- what the lane holds of the progress frame that landed last
abbrev pub recorded : Lane → Landed
recorded lane = record {
  text = lane.last_sent_text;
  at = lane.last_edit_at;
  count = lane.edits_sent;
}

abbrev pub landed_in : Flight → ℕ → Landed → Landed
landed_in clear now last = last
landed_in resolved now last = last
landed_in (flying text) now last = record {
  text = some text;
  at = some now;
  count = suc last.count;
}

-- the frame that landed last after an event: that in flight, where the event is its landing
abbrev pub landed_after : Event → Lane → Landed → Landed
landed_after (lands now) lane last = landed_in lane.in_flight now last
landed_after _ lane last = last

abbrev pub Kept : Lane → Lane → Type 0
Kept lane lane' = (lane'.ack ≡ lane.ack) × (recorded lane' ≡ recorded lane)

pub flush-Kept : (allowed : Bool) (lane : Lane) → Kept lane (flush allowed lane)
unfolding flush
flush-Kept allowed lane =
    if-cases (Kept lane) (lane.finalized || not (is_clear lane.in_flight)) _ _ (λ h. (refl, refl))
      (λ h. go lane.pending_text)
  where
    go : (o : Option String) → Kept lane (flush_text allowed o (record lane { timer = none }))
    go none = (refl, refl)
    go (some text) =
        if-cases (Kept lane) (is_same text lane.last_sent_text) _ _ (λ h. (refl, refl))
          (λ h.
            if-cases (Kept lane) (lane.pending_guarded && not allowed) _ _ (λ i. (refl, refl))
              (λ i. (refl, refl)))

timer_fires-Kept :
    (now : ℕ) (allowed : Bool) (lane : Lane) → Kept lane (timer_fires now allowed lane)
unfolding timer_fires
timer_fires-Kept now allowed lane = go lane.timer
  where
    go : (o : Option ℕ) → Kept lane (fire_at o now allowed lane)
    go none = (refl, refl)
    go (some due) =
        if-cases (Kept lane) (leb due now) _ _ (λ d. flush-Kept allowed lane) (λ d. (refl, refl))

fails-Kept : (lane : Lane) → Kept lane (edit_fails lane)
unfolding edit_fails
fails-Kept lane = go lane.in_flight
  where
    go : (f : Flight) → Kept lane (fail f lane)
    go clear = (refl, refl)
    go resolved = (refl, refl)
    go (flying text) = (refl, refl)

lands-recorded :
    (now : ℕ) (lane : Lane)
    → ((edit_lands now lane).ack ≡ lane.ack)
      × (recorded (edit_lands now lane) ≡ landed_in lane.in_flight now (recorded lane))
unfolding edit_lands
lands-recorded now lane = go lane.in_flight
  where
    go :
        (f : Flight)
        → ((land f now lane).ack ≡ lane.ack)
          × (recorded (land f now lane) ≡ landed_in f now (recorded lane))
    go clear = (refl, refl)
    go resolved = (refl, refl)
    go (flying text) = (refl, refl)

decide-Kept :
    (a : AckState) (n : ℕ) (allowed : Bool) (f : Final) (lane : Lane)
    → Kept lane (decide a n allowed f lane)
decide-Kept pending n allowed f lane = (refl, refl)
decide-Kept failed n allowed f lane =
    if-cases (Kept lane) (f.guarded && not allowed) _ _ (λ d. (refl, refl)) (λ d. (refl, refl))
decide-Kept acked n allowed f lane =
    if-cases (Kept lane) (f.guarded && not allowed) _ _ (λ d. (refl, refl))
      (λ d.
        if-cases (Kept lane) (is_same f.text lane.last_sent_text) _ _ (λ i. (refl, refl))
          (λ i. (refl, refl)))
decide-Kept assumed n allowed f lane =
    if-cases (Kept lane) (f.guarded && not allowed) _ _ (λ d. (refl, refl))
      (λ d.
        if-cases (Kept lane) (is_same f.text lane.last_sent_text) _ _ (λ i. (refl, refl))
          (λ i. (refl, refl)))

goes-Kept :
    (n : ℕ) (timed_out allowed : Bool) (lane : Lane)
    → Kept lane (final_goes n timed_out allowed lane)
unfolding final_goes
goes-Kept n timed_out allowed lane = go (nth n lane.finals)
  where
    at_stage : (s : Stage) (f : Final) → Kept lane (go_from s n timed_out allowed f lane)
    at_stage for_flight f =
        if-cases (Kept lane) (is_flying lane.in_flight) _ _ (λ d. (refl, refl)) (λ d. (refl, refl))
    at_stage for_ack f = decide-Kept (settled lane.ack timed_out) n allowed f lane
    at_stage for_send f = (refl, refl)

    go : (o : Option Final) → Kept lane (go_on o n timed_out allowed lane)
    go none = (refl, refl)
    go (some f) = at_stage f.stage f

ends-Kept : (n : ℕ) (reopen : Bool) (lane : Lane) → Kept lane (final_ends n reopen lane)
unfolding final_ends
ends-Kept n reopen lane = go (nth n lane.finals)
  where
    at_stage : (s : Stage) → Kept lane (end_final s reopen n lane)
    at_stage for_flight = (refl, refl)
    at_stage for_ack = (refl, refl)
    at_stage for_send = (refl, refl)

    go : (o : Option Final) → Kept lane (end_of o reopen n lane)
    go none = (refl, refl)
    go (some f) = at_stage f.stage

module _ (timing : Timing) where
  schedule_flush-Kept :
      (now : ℕ) (allowed : Bool) (lane : Lane) → Kept lane (schedule_flush timing now allowed lane)
  unfolding schedule_flush pace
  schedule_flush-Kept now allowed lane =
      if-cases (Kept lane) (lane.finalized || not (is_clear lane.in_flight) || is_set lane.timer) _
        _ (λ d. (refl, refl)) (λ d. go lane.ack)
    where
      paced : Kept lane (pace timing now allowed lane)
      paced =
          if-cases (Kept lane) (leb (due_at timing lane lane.last_edit_at) now) _ _
            (λ d. flush-Kept allowed lane) (λ d. (refl, refl))

      go : (a : AckState) → Kept lane (schedule_for timing a now allowed lane)
      go pending = (refl, refl)
      go failed = (refl, refl)
      go acked = paced
      go assumed = paced

  update-Kept :
      (now : ℕ) (allowed guarded : Bool) (text : String) (lane : Lane)
      → Kept lane (update timing now allowed guarded text lane)
  unfolding update
  update-Kept now allowed guarded text lane =
      if-cases (Kept lane) lane.finalized _ _ (λ d. (refl, refl))
        (λ d.
          schedule_flush-Kept now allowed
            (record lane { pending_text = some text; pending_guarded = guarded }))

  resume-Kept :
      (now : ℕ) (allowed : Bool) (lane : Lane) → Kept lane (resume timing now allowed lane)
  unfolding resume
  resume-Kept now allowed lane = go lane.resuming
    where
      go : (n : ℕ) → Kept lane (resume_with timing n now allowed lane)
      go zero = (refl, refl)
      go (suc n) =
          if-cases (Kept lane) (has_text lane.pending_text && not lane.finalized) _ _
            (λ d. schedule_flush-Kept now allowed (record lane { resuming = n }))
            (λ d. (refl, refl))

  -- a failed wait stays failed, and the lane's record follows the frames that land
  abbrev Follows : Event → Lane → Lane → Type 0
  Follows e lane lane' =
      (lane.ack ≡ failed → lane'.ack ≡ failed)
      × (recorded lane' ≡ landed_after e lane (recorded lane))

  acks-Follows :
      (ok : Bool) (now : ℕ) (allowed : Bool) (lane : Lane)
      → Follows (acks ok now allowed) lane (ack_resolves timing ok now allowed lane)
  unfolding ack_resolves
  acks-Follows ok now allowed lane = go lane.ack refl ok
    where
      go :
          (a : AckState)
          → lane.ack ≡ a
          → (b : Bool) → Follows (acks ok now allowed) lane (settle_ack timing a b now allowed lane)
      go acked e b = (λ h. h, refl)
      go failed e b = (λ h. h, refl)
      go assumed e b = (λ h. h, refl)
      go pending e true = (
        λ h. absurd (cc (e, h)),
        (schedule_flush-Kept now allowed (record lane { ack = acked })).1,
      )
      go pending e false = (λ h. refl, refl)

  step-Follows : (e : Event) (lane : Lane) → Follows e lane (step timing e lane)
  unfolding step throttled_edit cancel_existing finalize
  step-Follows (updates now allowed guarded text) lane =
      let h = update-Kept now allowed guarded text lane in (λ e. h.0 ∙ e, h.1)
  step-Follows (throttles now allowed guarded text) lane =
      let h = update-Kept now allowed guarded text (record lane { finalized = false }) in
      (λ e. h.0 ∙ e, h.1)
  step-Follows (fires now allowed) lane =
      let h = timer_fires-Kept now allowed lane in (λ e. h.0 ∙ e, h.1)
  step-Follows (resumes now allowed) lane =
      let h = resume-Kept now allowed lane in (λ e. h.0 ∙ e, h.1)
  step-Follows (lands now) lane = let h = lands-recorded now lane in (λ e. h.0 ∙ e, h.1)
  step-Follows fails lane = let h = fails-Kept lane in (λ e. h.0 ∙ e, h.1)
  step-Follows cancels lane = (λ e. e, refl)
  step-Follows (acks ok now allowed) lane = acks-Follows ok now allowed lane
  step-Follows (finalizes text guarded if_unfetched) lane =
      if-cases (λ (r : Lane × Bool). Follows (finalizes text guarded if_unfetched) lane r.0)
        lane.finalized _ _ (λ d. (λ e. e, refl)) (λ d. (λ e. e, refl))
  step-Follows (goes n timed_out allowed) lane =
      let h = goes-Kept n timed_out allowed lane in (λ e. h.0 ∙ e, h.1)
  step-Follows (ends n reopen) lane = let h = ends-Kept n reopen lane in (λ e. h.0 ∙ e, h.1)

  pub run-failed :
      (es : List Event) (lane : Lane) → lane.ack ≡ failed → (run timing es lane).ack ≡ failed
  unfolding run
  run-failed [] lane h = h
  run-failed (e ∷ es) lane h = run-failed es (step timing e lane) ((step-Follows e lane).0 h)

  -- the progress frame that landed last in a history, from the one that landed last before it
  unfoldable pub last_landed : List Event → Lane → Landed → Landed
  last_landed [] lane last = last
  last_landed (e ∷ es) lane last = last_landed es (step timing e lane) (landed_after e lane last)

  pub run-recorded :
      (es : List Event) (lane : Lane)
      → recorded (run timing es lane) ≡ last_landed es lane (recorded lane)
  unfolding run last_landed
  run-recorded [] lane = refl
  run-recorded (e ∷ es) lane =
      run-recorded es (step timing e lane)
      ∙ ap (last_landed es (step timing e lane)) (step-Follows e lane).1
