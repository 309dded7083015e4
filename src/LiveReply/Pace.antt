-- ===== src/LiveReply/Pace.antt =====
-- What each event of a lane sends.
use polkadot_chat_agents.Base.{
  ℕ, zero, suc, ◌≤◌, String, Bool, true, false, not, ◌&&◌, ◌||◌, Option, none, some, List, [], ◌∷◌,
  ◌++◌, ◌≡◌, refl, ap, sym, ◌∙◌, subst, arith, leb, if-cases,
}
use polkadot_chat_agents.LiveReply.Lane.{
  AckState, pending, acked, failed, assumed, Flight, clear, flying, resolved, Sent, progress,
  final_edit, plain, Stage, for_flight, for_ack, for_send, Final, Timing, Lane, is_clear, is_same,
  is_set, flush_text, flush, due_at, pace, schedule_for, schedule_flush, update, throttled_edit,
  fire_at, timer_fires, land, fail, edit_lands, edit_fails, has_text, resume, resume_with,
  settle_ack, ack_resolves, finalize, cancel_existing, nth, fallback, decide, settled, is_flying,
  go_from, go_on, final_goes, end_final, end_of, final_ends, Event, updates, throttles, fires,
  resumes, lands, fails, cancels, acks, finalizes, goes, ends, step, run,
}

abbrev pub is_progress : Sent → Bool
is_progress (progress text) = true
is_progress (final_edit text) = false
is_progress (plain text) = false

-- what an event at the time `now` has sent, where the next edit is due at `due` and the text of the
-- last one was `last`
pub data Gain (now due : ℕ) (last : Option String) (before after : List Sent) : Type 0 where
  silent : after ≡ before → Gain now due last before after
  framed :
      (text : String)
      → after ≡ before ++ progress text ∷ []
      → due ≤ now
      → is_same text last ≡ false
      → Gain now due last before after
  answered :
      (s : Sent) → after ≡ before ++ s ∷ [] → is_progress s ≡ false → Gain now due last before after

abbrev pub Sends : Timing → ℕ → Lane → Lane → Type 0
Sends timing now lane lane' =
    Gain now (due_at timing lane lane.last_edit_at) lane.last_sent_text lane.sent lane'.sent

-- a timer stands at the due time of the next edit, and only where none is in flight
abbrev pub IsDue : Timing → Lane → Option ℕ → Type 0
IsDue timing lane none = Unit
IsDue timing lane (some due) =
    (due ≡ due_at timing lane lane.last_edit_at) × (is_clear lane.in_flight ≡ true)

abbrev pub IsTimed : Timing → Lane → Type 0
IsTimed timing lane = IsDue timing lane lane.timer

pub guard_free : (a b c : Bool) → a || not b || c ≡ false → b ≡ true
guard_free a b c h = ground (arith, h)

module _ (timing : Timing) where
  abbrev Outcome : ℕ → Lane → Lane → Type 0
  Outcome now lane lane' = Sends timing now lane lane' × IsTimed timing lane'

  -- `flush` at a time when the next edit is due
  flush-Outcome :
      (now : ℕ) (allowed : Bool) (lane : Lane)
      → due_at timing lane lane.last_edit_at ≤ now
      → Outcome now lane (flush allowed lane)
  unfolding flush
  flush-Outcome now allowed lane ripe =
      if-cases (Outcome now lane) (lane.finalized || not (is_clear lane.in_flight)) _ _
        (λ h. (silent refl, tt)) (λ h. go lane.pending_text)
    where
      go :
          (o : Option String)
          → Outcome now lane (flush_text allowed o (record lane { timer = none }))
      go none = (silent refl, tt)
      go (some text) =
          if-cases (Outcome now lane) (is_same text lane.last_sent_text) _ _
            (λ h. (silent refl, tt))
            (λ fresh.
              if-cases (Outcome now lane) (lane.pending_guarded && not allowed) _ _
                (λ i. (silent refl, tt)) (λ i. (framed text refl ripe fresh, tt)))

  pace-Outcome :
      (now : ℕ) (allowed : Bool) (lane : Lane)
      → is_clear lane.in_flight ≡ true
      → Outcome now lane (pace timing now allowed lane)
  unfolding pace
  pace-Outcome now allowed lane free =
      if-cases (Outcome now lane) (leb (due_at timing lane lane.last_edit_at) now) _ _
        (λ d. flush-Outcome now allowed lane (ground (arith, d))) (λ d. (silent refl, (refl, free)))

  schedule_flush-Outcome :
      (now : ℕ) (allowed : Bool) (lane : Lane)
      → IsTimed timing lane
      → Outcome now lane (schedule_flush timing now allowed lane)
  unfolding schedule_flush
  schedule_flush-Outcome now allowed lane h =
      if-cases (Outcome now lane)
        (lane.finalized || not (is_clear lane.in_flight) || is_set lane.timer) _ _
        (λ d. (silent refl, h))
        (λ d.
          go lane.ack (guard_free lane.finalized (is_clear lane.in_flight) (is_set lane.timer) d))
    where
      go :
          (a : AckState)
          → is_clear lane.in_flight ≡ true
          → Outcome now lane (schedule_for timing a now allowed lane)
      go pending free = (silent refl, h)
      go failed free = (silent refl, h)
      go acked free = pace-Outcome now allowed lane free
      go assumed free = pace-Outcome now allowed lane free

  update-Outcome :
      (now : ℕ) (allowed guarded : Bool) (text : String) (lane : Lane)
      → IsTimed timing lane
      → Outcome now lane (update timing now allowed guarded text lane)
  unfolding update
  update-Outcome now allowed guarded text lane h =
      if-cases (Outcome now lane) lane.finalized _ _ (λ d. (silent refl, h))
        (λ d.
          schedule_flush-Outcome now allowed
            (record lane { pending_text = some text; pending_guarded = guarded }) h)

  timer_fires-Outcome :
      (now : ℕ) (allowed : Bool) (lane : Lane)
      → IsTimed timing lane
      → Outcome now lane (timer_fires now allowed lane)
  unfolding timer_fires
  timer_fires-Outcome now allowed lane h = go lane.timer refl
    where
      go : (o : Option ℕ) → lane.timer ≡ o → Outcome now lane (fire_at o now allowed lane)
      go none e = (silent refl, h)
      go (some due) e =
          if-cases (Outcome now lane) (leb due now) _ _
            (λ d.
              flush-Outcome now allowed lane (ground (arith, d, (subst (IsDue timing lane) e h).0)))
            (λ d. (silent refl, h))

  -- with an edit in flight there is no timer
  untimed :
      (lane : Lane) (text : String)
      → IsTimed timing lane
      → lane.in_flight ≡ flying text
      → lane.timer ≡ none
  untimed lane text h e = go lane.timer refl
    where
      go : (o : Option ℕ) → lane.timer ≡ o → lane.timer ≡ none
      go none p = p
      go (some due) p = absurd (cc (sym (ap is_clear e) ∙ (subst (IsDue timing lane) p h).1))

  lands-Outcome :
      (now later : ℕ) (lane : Lane) → IsTimed timing lane → Outcome now lane (edit_lands later lane)
  unfolding edit_lands
  lands-Outcome now later lane h = go lane.in_flight refl
    where
      go : (f : Flight) → lane.in_flight ≡ f → Outcome now lane (land f later lane)
      go clear e = (silent refl, h)
      go resolved e = (silent refl, h)
      go (flying text) e = (
        silent refl,
        subst (IsDue timing (land (flying text) later lane)) (sym (untimed lane text h e)) tt,
      )

  fails-Outcome : (now : ℕ) (lane : Lane) → IsTimed timing lane → Outcome now lane (edit_fails lane)
  unfolding edit_fails
  fails-Outcome now lane h = go lane.in_flight refl
    where
      go : (f : Flight) → lane.in_flight ≡ f → Outcome now lane (fail f lane)
      go clear e = (silent refl, h)
      go resolved e = (silent refl, h)
      go (flying text) e = (
        silent refl,
        subst (IsDue timing (fail (flying text) lane)) (sym (untimed lane text h e)) tt,
      )

  resume-Outcome :
      (now : ℕ) (allowed : Bool) (lane : Lane)
      → IsTimed timing lane
      → Outcome now lane (resume timing now allowed lane)
  unfolding resume
  resume-Outcome now allowed lane h = go lane.resuming
    where
      go : (n : ℕ) → Outcome now lane (resume_with timing n now allowed lane)
      go zero = (silent refl, h)
      go (suc n) =
          if-cases (Outcome now lane) (has_text lane.pending_text && not lane.finalized) _ _
            (λ d. schedule_flush-Outcome now allowed (record lane { resuming = n }) h)
            (λ d. (silent refl, h))

  acks-Outcome :
      (ok : Bool) (now : ℕ) (allowed : Bool) (lane : Lane)
      → IsTimed timing lane
      → Outcome now lane (ack_resolves timing ok now allowed lane)
  unfolding ack_resolves
  acks-Outcome ok now allowed lane h = go lane.ack ok
    where
      go : (a : AckState) (b : Bool) → Outcome now lane (settle_ack timing a b now allowed lane)
      go acked b = (silent refl, h)
      go failed b = (silent refl, h)
      go assumed b = (silent refl, h)
      go pending true = schedule_flush-Outcome now allowed (record lane { ack = acked }) h
      go pending false = (silent refl, h)

  decide-Outcome :
      (now : ℕ) (a : AckState) (n : ℕ) (allowed : Bool) (f : Final) (lane : Lane)
      → IsTimed timing lane
      → Outcome now lane (decide a n allowed f lane)
  decide-Outcome now pending n allowed f lane h = (silent refl, h)
  decide-Outcome now failed n allowed f lane h =
      if-cases (Outcome now lane) (f.guarded && not allowed) _ _ (λ d. (silent refl, h))
        (λ d. (answered (plain (fallback f)) refl refl, h))
  decide-Outcome now acked n allowed f lane h =
      if-cases (Outcome now lane) (f.guarded && not allowed) _ _ (λ d. (silent refl, h))
        (λ d.
          if-cases (Outcome now lane) (is_same f.text lane.last_sent_text) _ _
            (λ i. (silent refl, h)) (λ i. (answered (final_edit f.text) refl refl, h)))
  decide-Outcome now assumed n allowed f lane h =
      if-cases (Outcome now lane) (f.guarded && not allowed) _ _ (λ d. (silent refl, h))
        (λ d.
          if-cases (Outcome now lane) (is_same f.text lane.last_sent_text) _ _
            (λ i. (silent refl, h)) (λ i. (answered (final_edit f.text) refl refl, h)))

  goes-Outcome :
      (now n : ℕ) (timed_out allowed : Bool) (lane : Lane)
      → IsTimed timing lane
      → Outcome now lane (final_goes n timed_out allowed lane)
  unfolding final_goes
  goes-Outcome now n timed_out allowed lane h = go (nth n lane.finals)
    where
      at_stage : (s : Stage) (f : Final) → Outcome now lane (go_from s n timed_out allowed f lane)
      at_stage for_flight f =
          if-cases (Outcome now lane) (is_flying lane.in_flight) _ _ (λ d. (silent refl, h))
            (λ d. (silent refl, h))
      at_stage for_ack f = decide-Outcome now (settled lane.ack timed_out) n allowed f lane h
      at_stage for_send f = (silent refl, h)

      go : (o : Option Final) → Outcome now lane (go_on o n timed_out allowed lane)
      go none = (silent refl, h)
      go (some f) = at_stage f.stage f

  ends-Outcome :
      (now n : ℕ) (reopen : Bool) (lane : Lane)
      → IsTimed timing lane
      → Outcome now lane (final_ends n reopen lane)
  unfolding final_ends
  ends-Outcome now n reopen lane h = go (nth n lane.finals)
    where
      at_stage : (s : Stage) → Outcome now lane (end_final s reopen n lane)
      at_stage for_flight = (silent refl, h)
      at_stage for_ack = (silent refl, h)
      at_stage for_send = (silent refl, h)

      go : (o : Option Final) → Outcome now lane (end_of o reopen n lane)
      go none = (silent refl, h)
      go (some f) = at_stage f.stage

  -- the time of an event; those that read no clock have none
  abbrev pub time_of : Event → ℕ
  time_of (updates now allowed guarded text) = now
  time_of (throttles now allowed guarded text) = now
  time_of (fires now allowed) = now
  time_of (resumes now allowed) = now
  time_of (lands now) = now
  time_of fails = 0
  time_of cancels = 0
  time_of (acks ok now allowed) = now
  time_of (finalizes text guarded if_unfetched) = 0
  time_of (goes n timed_out allowed) = 0
  time_of (ends n reopen) = 0

  step-Outcome :
      (e : Event) (lane : Lane)
      → IsTimed timing lane
      → Outcome (time_of e) lane (step timing e lane)
  unfolding step throttled_edit cancel_existing finalize
  step-Outcome (updates now allowed guarded text) lane h =
      update-Outcome now allowed guarded text lane h
  step-Outcome (throttles now allowed guarded text) lane h =
      update-Outcome now allowed guarded text (record lane { finalized = false }) h
  step-Outcome (fires now allowed) lane h = timer_fires-Outcome now allowed lane h
  step-Outcome (resumes now allowed) lane h = resume-Outcome now allowed lane h
  step-Outcome (lands now) lane h = lands-Outcome now now lane h
  step-Outcome fails lane h = fails-Outcome 0 lane h
  step-Outcome cancels lane h = (silent refl, tt)
  step-Outcome (acks ok now allowed) lane h = acks-Outcome ok now allowed lane h
  step-Outcome (finalizes text guarded if_unfetched) lane h =
      if-cases (λ (r : Lane × Bool). Outcome 0 lane r.0) lane.finalized _ _ (λ d. (silent refl, h))
        (λ d. (silent refl, tt))
  step-Outcome (goes n timed_out allowed) lane h = goes-Outcome 0 n timed_out allowed lane h
  step-Outcome (ends n reopen) lane h = ends-Outcome 0 n reopen lane h

  run-IsTimed :
      (es : List Event) (lane : Lane) → IsTimed timing lane → IsTimed timing (run timing es lane)
  unfolding run
  run-IsTimed [] lane h = h
  run-IsTimed (e ∷ es) lane h = run-IsTimed es (step timing e lane) (step-Outcome e lane h).1

  pub run_from-Sends :
      (es : List Event) (e : Event) (lane : Lane)
      → IsTimed timing lane
      → Sends timing (time_of e) (run timing es lane) (step timing e (run timing es lane))
  run_from-Sends es e lane h = (step-Outcome e (run timing es lane) (run-IsTimed es lane h)).0
