-- ===== src/LiveReply/Wedge.antt =====
-- A lane whose guard has refused a progress frame.
use polkadot_chat_agents.Base.{
  ℕ, zero, suc, String, Bool, true, false, not, ◌&&◌, ◌||◌, Option, none, some, List, [], ◌∷◌, ◌++◌,
  ◌≡◌, ◌≢◌, refl, ap, sym, ◌∙◌, arith, leb, keep_if, if-cases,
}
use polkadot_chat_agents.LiveReply.Lane.{
  AckState, pending, acked, failed, assumed, Flight, clear, flying, resolved, Sent, final_edit,
  plain, Stage, for_flight, for_ack, for_send, Final, Timing, Lane, is_clear, is_same, is_set,
  flush, schedule_flush, update, throttled_edit, fire_at, timer_fires, land, fail, edit_lands,
  edit_fails, has_text, resume, resume_with, settle_ack, ack_resolves, finalize, cancel_existing,
  nth, put_nth, drop_nth, fallback, decide, settled, is_flying, go_from, go_on, final_goes,
  end_final, end_of, final_ends, Event, updates, throttles, fires, resumes, lands, fails, cancels,
  acks, finalizes, goes, ends, step, run,
}
use polkadot_chat_agents.LiveReply.Pace.{is_progress, guard_free}

abbrev pub frames : List Sent → List Sent
frames = keep_if is_progress

-- the flight is stuck, and the frames sent are those of `log`
record IsStuck (log : List Sent) (lane : Lane) : Type 0 where
  stuck : lane.in_flight ≡ resolved
  same : frames lane.sent ≡ log

frames-answer :
    (xs : List Sent) (s : Sent) → is_progress s ≡ false → frames (xs ++ s ∷ []) ≡ frames xs
frames-answer [] s e = rw e refl
frames-answer (x ∷ xs) s e = ground (arith, frames-answer xs s e)

not_clear : (lane : Lane) → lane.in_flight ≡ resolved → is_clear lane.in_flight ≢ true
not_clear lane e p = cc (sym (ap is_clear e) ∙ p)

module _ (log : List Sent) where
  flush-IsStuck :
      (allowed : Bool) (lane : Lane) → IsStuck log lane → IsStuck log (flush allowed lane)
  unfolding flush
  flush-IsStuck allowed lane h =
      if-cases (IsStuck log) (lane.finalized || not (is_clear lane.in_flight)) _ _
        (λ d. record { stuck = h.stuck; same = h.same })
        (λ d.
          absurd (not_clear lane h.stuck (open_flight lane.finalized (is_clear lane.in_flight) d)))
    where
      open_flight : (a b : Bool) → a || not b ≡ false → b ≡ true
      open_flight a b e = ground (arith, e)

  module _ (timing : Timing) where
    schedule_flush-IsStuck :
        (now : ℕ) (allowed : Bool) (lane : Lane)
        → IsStuck log lane
        → IsStuck log (schedule_flush timing now allowed lane)
    unfolding schedule_flush
    schedule_flush-IsStuck now allowed lane h =
        if-cases (IsStuck log)
          (lane.finalized || not (is_clear lane.in_flight) || is_set lane.timer) _ _ (λ d. h)
          (λ d. absurd (
            not_clear lane h.stuck
              (guard_free lane.finalized (is_clear lane.in_flight) (is_set lane.timer) d)))

    update-IsStuck :
        (now : ℕ) (allowed guarded : Bool) (text : String) (lane : Lane)
        → IsStuck log lane
        → IsStuck log (update timing now allowed guarded text lane)
    unfolding update
    update-IsStuck now allowed guarded text lane h =
        if-cases (IsStuck log) lane.finalized _ _ (λ d. h)
          (λ d.
            schedule_flush-IsStuck now allowed
              (record lane { pending_text = some text; pending_guarded = guarded })
              (record { stuck = h.stuck; same = h.same }))

    timer_fires-IsStuck :
        (now : ℕ) (allowed : Bool) (lane : Lane)
        → IsStuck log lane
        → IsStuck log (timer_fires now allowed lane)
    unfolding timer_fires
    timer_fires-IsStuck now allowed lane h = go lane.timer
      where
        go : (o : Option ℕ) → IsStuck log (fire_at o now allowed lane)
        go none = h
        go (some due) =
            if-cases (IsStuck log) (leb due now) _ _ (λ d. flush-IsStuck allowed lane h) (λ d. h)

    lands-IsStuck : (now : ℕ) (lane : Lane) → IsStuck log lane → IsStuck log (edit_lands now lane)
    unfolding edit_lands
    lands-IsStuck now lane h = go lane.in_flight h.stuck
      where
        go : (f : Flight) → f ≡ resolved → IsStuck log (land f now lane)
        go clear e = h
        go resolved e = h
        go (flying text) e = absurd (cc e)

    fails-IsStuck : (lane : Lane) → IsStuck log lane → IsStuck log (edit_fails lane)
    unfolding edit_fails
    fails-IsStuck lane h = go lane.in_flight h.stuck
      where
        go : (f : Flight) → f ≡ resolved → IsStuck log (fail f lane)
        go clear e = h
        go resolved e = h
        go (flying text) e = absurd (cc e)

    resume-IsStuck :
        (now : ℕ) (allowed : Bool) (lane : Lane)
        → IsStuck log lane
        → IsStuck log (resume timing now allowed lane)
    unfolding resume
    resume-IsStuck now allowed lane h = go lane.resuming
      where
        go : (n : ℕ) → IsStuck log (resume_with timing n now allowed lane)
        go zero = h
        go (suc n) =
            if-cases (IsStuck log) (has_text lane.pending_text && not lane.finalized) _ _
              (λ d.
                schedule_flush-IsStuck now allowed (record lane { resuming = n })
                  (record { stuck = h.stuck; same = h.same }))
              (λ d. record { stuck = h.stuck; same = h.same })

    acks-IsStuck :
        (ok : Bool) (now : ℕ) (allowed : Bool) (lane : Lane)
        → IsStuck log lane
        → IsStuck log (ack_resolves timing ok now allowed lane)
    unfolding ack_resolves
    acks-IsStuck ok now allowed lane h = go lane.ack ok
      where
        go : (a : AckState) (b : Bool) → IsStuck log (settle_ack timing a b now allowed lane)
        go acked b = h
        go failed b = h
        go assumed b = h
        go pending true =
            schedule_flush-IsStuck now allowed (record lane { ack = acked })
              (record { stuck = h.stuck; same = h.same })
        go pending false = record { stuck = h.stuck; same = h.same }

    decide-IsStuck :
        (a : AckState) (n : ℕ) (allowed : Bool) (f : Final) (lane : Lane)
        → IsStuck log lane
        → IsStuck log (decide a n allowed f lane)
    decide-IsStuck a n allowed f lane h = go a
      where
        dropped : IsStuck log (record lane { finals = drop_nth n lane.finals })
        dropped = record { stuck = h.stuck; same = h.same }

        answer :
            (s : Sent)
            → is_progress s ≡ false
            → IsStuck log (record lane {
              sent = lane.sent ++ s ∷ [];
              finals = put_nth n for_send lane.finals;
            })
        answer s e = record { stuck = h.stuck; same = frames-answer lane.sent s e ∙ h.same }

        edit : IsStuck log (decide acked n allowed f lane)
        edit =
            if-cases (IsStuck log) (f.guarded && not allowed) _ _ (λ d. dropped)
              (λ d.
                if-cases (IsStuck log) (is_same f.text lane.last_sent_text) _ _ (λ i. dropped)
                  (λ i. answer (final_edit f.text) refl))

        go : (b : AckState) → IsStuck log (decide b n allowed f lane)
        go pending = h
        go failed =
            if-cases (IsStuck log) (f.guarded && not allowed) _ _ (λ d. dropped)
              (λ d. answer (plain (fallback f)) refl)
        go acked = edit
        go assumed = edit

    goes-IsStuck :
        (n : ℕ) (timed_out allowed : Bool) (lane : Lane)
        → IsStuck log lane
        → IsStuck log (final_goes n timed_out allowed lane)
    unfolding final_goes
    goes-IsStuck n timed_out allowed lane h = go (nth n lane.finals)
      where
        at_stage : (s : Stage) (f : Final) → IsStuck log (go_from s n timed_out allowed f lane)
        at_stage for_flight f =
            if-cases (IsStuck log) (is_flying lane.in_flight) _ _ (λ d. h)
              (λ d. record { stuck = h.stuck; same = h.same })
        at_stage for_ack f = decide-IsStuck (settled lane.ack timed_out) n allowed f lane h
        at_stage for_send f = h

        go : (o : Option Final) → IsStuck log (go_on o n timed_out allowed lane)
        go none = h
        go (some f) = at_stage f.stage f

    ends-IsStuck :
        (n : ℕ) (reopen : Bool) (lane : Lane)
        → IsStuck log lane
        → IsStuck log (final_ends n reopen lane)
    unfolding final_ends
    ends-IsStuck n reopen lane h = go (nth n lane.finals)
      where
        at_stage : (s : Stage) → IsStuck log (end_final s reopen n lane)
        at_stage for_flight = h
        at_stage for_ack = h
        at_stage for_send = record { stuck = h.stuck; same = h.same }

        go : (o : Option Final) → IsStuck log (end_of o reopen n lane)
        go none = h
        go (some f) = at_stage f.stage

    step-IsStuck : (e : Event) (lane : Lane) → IsStuck log lane → IsStuck log (step timing e lane)
    unfolding step throttled_edit cancel_existing finalize
    step-IsStuck (updates now allowed guarded text) lane h =
        update-IsStuck now allowed guarded text lane h
    step-IsStuck (throttles now allowed guarded text) lane h =
        update-IsStuck now allowed guarded text (record lane { finalized = false })
          (record { stuck = h.stuck; same = h.same })
    step-IsStuck (fires now allowed) lane h = timer_fires-IsStuck now allowed lane h
    step-IsStuck (resumes now allowed) lane h = resume-IsStuck now allowed lane h
    step-IsStuck (lands now) lane h = lands-IsStuck now lane h
    step-IsStuck fails lane h = fails-IsStuck lane h
    step-IsStuck cancels lane h = record { stuck = h.stuck; same = h.same }
    step-IsStuck (acks ok now allowed) lane h = acks-IsStuck ok now allowed lane h
    step-IsStuck (finalizes text guarded if_unfetched) lane h =
        if-cases (λ (r : Lane × Bool). IsStuck log r.0) lane.finalized _ _ (λ d. h)
          (λ d. record { stuck = h.stuck; same = h.same })
    step-IsStuck (goes n timed_out allowed) lane h = goes-IsStuck n timed_out allowed lane h
    step-IsStuck (ends n reopen) lane h = ends-IsStuck n reopen lane h

    run-IsStuck :
        (es : List Event) (lane : Lane) → IsStuck log lane → IsStuck log (run timing es lane)
    unfolding run
    run-IsStuck [] lane h = h
    run-IsStuck (e ∷ es) lane h = run-IsStuck es (step timing e lane) (step-IsStuck e lane h)

-- On an open lane with no edit in flight, after a flush of a new text whose guard refuses it, no
-- event ever sends another progress frame, whatever guards its frames have.
pub refused-wedges :
    (timing : Timing) (es : List Event) (lane : Lane) (text : String)
    → lane.finalized ≡ false
    → lane.in_flight ≡ clear
    → lane.pending_text ≡ some text
    → lane.pending_guarded ≡ true
    → is_same text lane.last_sent_text ≡ false
    → frames (run timing es (flush false lane)).sent ≡ frames lane.sent
unfolding flush
refused-wedges timing es lane text live idle waits guarded new =
    (run-IsStuck (frames lane.sent) timing es (flush false lane) stuck_now).same
  where
    stuck_now : IsStuck (frames lane.sent) (flush false lane)
    stuck_now = record {
      stuck = rw (live, idle, waits, new, guarded, flush) refl;
      same = rw (live, idle, waits, new, guarded, flush) refl;
    }
