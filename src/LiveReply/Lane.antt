-- ===== src/LiveReply/Lane.antt =====
-- A lane of live edits. What a guard answers is in the event that asks it; `allowed` counts where
-- there is a guard. The events name a running `finalize` by its place in the list.
use polkadot_chat_agents.Base.{
  ◌^◌, ℕ, zero, suc, ◌*◌, ◌/◌, ◌+◌, String, Bool, true, false, not, ◌&&◌, ◌||◌, Option, none, some,
  List, [], ◌∷◌, ◌++◌, leb, if◌then◌else◌, key_dec, ite, min,
}

pub data AckState : Type 0 where
  pending acked failed assumed : AckState

-- `inFlight`. A guard that refuses ends the edit before its promise is stored: the field is set to
-- null first and to the resolved promise then, where it stays (`resolved`).
pub data Flight : Type 0 where
  clear : Flight
  flying : String → Flight
  resolved : Flight

-- what is handed to `send`: a progress frame, the final edit, or the message that supersedes
pub data Sent : Type 0 where
  progress : String → Sent
  final_edit : String → Sent
  plain : String → Sent

-- where a `finalize` waits: for the edit in flight, for the ACK, or for its own `send`
pub data Stage : Type 0 where
  for_flight for_ack for_send : Stage

pub record Final : Type 0 where
  pub text : String
  pub guarded : Bool
  pub if_unfetched : Option String
  pub stage : Stage

pub record Timing : Type 0 where
  pub min_interval_ms : ℕ
  pub max_interval_ms : ℕ

pub record Lane : Type 0 where
  pub ack : AckState
  pub finalized : Bool
  pub in_flight : Flight
  -- the flushes that have yet to go on after their edit in flight
  pub resuming : ℕ
  pub pending_text : Option String
  pub pending_guarded : Bool
  pub default_guarded : Bool
  pub last_sent_text : Option String
  pub edits_sent : ℕ
  pub last_edit_at : Option ℕ
  -- when the timer is due
  pub timer : Option ℕ
  pub finals : List Final
  pub sent : List Sent

-- the lane that `begin` makes once the placeholder is sent, and the one of an older message
unfoldable pub begin : String → Bool → ℕ → Lane
begin text guarded now = record {
  ack = pending;
  finalized = false;
  in_flight = clear;
  resuming = 0;
  pending_text = none;
  pending_guarded = false;
  default_guarded = guarded;
  last_sent_text = some text;
  edits_sent = 0;
  last_edit_at = some now;
  timer = none;
  finals = [];
  sent = [];
}

unfoldable pub assume : Lane
assume = record {
  ack = assumed;
  finalized = false;
  in_flight = clear;
  resuming = 0;
  pending_text = none;
  pending_guarded = false;
  default_guarded = false;
  last_sent_text = none;
  edits_sent = 0;
  last_edit_at = none;
  timer = none;
  finals = [];
  sent = [];
}

abbrev pub is_clear : Flight → Bool
is_clear clear = true
is_clear (flying text) = false
is_clear resolved = false

abbrev pub is_same : String → Option String → Bool
is_same text none = false
is_same text (some last) = ite (key_dec text last) true false

abbrev pub is_set : Option ℕ → Bool
is_set none = false
is_set (some due) = true

abbrev pub drop_pending : Lane → Lane
drop_pending lane = record lane { pending_text = none; pending_guarded = false }

-- the edit of a flush, with its guard
abbrev pub submit : Bool → String → Lane → Lane
submit refused text lane =
    if refused
    then record lane { in_flight = resolved; resuming = suc lane.resuming }
    else record lane { in_flight = flying text; sent = lane.sent ++ progress text ∷ [] }

abbrev pub flush_text : Bool → Option String → Lane → Lane
flush_text allowed none lane = drop_pending lane
flush_text allowed (some text) lane =
    if is_same text lane.last_sent_text
    then drop_pending lane
    else submit (lane.pending_guarded && not allowed) text (drop_pending lane)

unfoldable pub flush : Bool → Lane → Lane
flush allowed lane =
    let lane' : Lane = record lane { timer = none } in
    if lane.finalized || not (is_clear lane.in_flight)
    then lane'
    else flush_text allowed lane.pending_text lane'

abbrev pub fire_at : Option ℕ → ℕ → Bool → Lane → Lane
fire_at none now allowed lane = lane
fire_at (some due) now allowed lane = if leb due now then flush allowed lane else lane

unfoldable pub timer_fires : ℕ → Bool → Lane → Lane
unfolding flush
timer_fires now allowed lane = fire_at lane.timer now allowed lane

abbrev pub land : Flight → ℕ → Lane → Lane
land clear now lane = lane
land resolved now lane = lane
land (flying text) now lane = record lane {
  in_flight = clear;
  resuming = suc lane.resuming;
  last_sent_text = some text;
  edits_sent = suc lane.edits_sent;
  last_edit_at = some now;
}

abbrev pub fail : Flight → Lane → Lane
fail clear lane = lane
fail resolved lane = lane
fail (flying text) lane = record lane { in_flight = clear; resuming = suc lane.resuming }

-- the `send` of a progress frame has resolved, or rejected
unfoldable pub edit_lands : ℕ → Lane → Lane
edit_lands now lane = land lane.in_flight now lane

unfoldable pub edit_fails : Lane → Lane
edit_fails lane = fail lane.in_flight lane

abbrev pub has_text : Option String → Bool
has_text none = false
has_text (some text) = true

module _ (timing : Timing) where
  unfoldable pub interval_for : ℕ → ℕ
  interval_for edits_sent =
      min (timing.min_interval_ms * 2 ^ (edits_sent / 3)) timing.max_interval_ms

  abbrev pub due_at : Lane → Option ℕ → ℕ
  due_at lane none = 0
  due_at lane (some last) = last + interval_for lane.edits_sent

  unfoldable pub pace : ℕ → Bool → Lane → Lane
  unfolding flush interval_for
  pace now allowed lane =
      if leb (due_at lane lane.last_edit_at) now
      then flush allowed lane
      else record lane { timer = some (due_at lane lane.last_edit_at) }

  abbrev pub schedule_for : AckState → ℕ → Bool → Lane → Lane
  schedule_for pending now allowed lane = lane
  schedule_for failed now allowed lane = record lane { pending_text = none }
  schedule_for acked now allowed lane = pace now allowed lane
  schedule_for assumed now allowed lane = pace now allowed lane

  unfoldable pub schedule_flush : ℕ → Bool → Lane → Lane
  unfolding pace
  schedule_flush now allowed lane =
      if lane.finalized || not (is_clear lane.in_flight) || is_set lane.timer
      then lane
      else schedule_for lane.ack now allowed lane

  -- `update`, with the guard it is given or the lane's own
  unfoldable pub update : ℕ → Bool → Bool → String → Lane → Lane
  unfolding schedule_flush
  update now allowed guarded text lane =
      if lane.finalized
      then lane
      else schedule_flush now allowed
          (record lane { pending_text = some text; pending_guarded = guarded })

  -- `throttledEdit`, on the lane that it found or made
  unfoldable pub throttled_edit : ℕ → Bool → Bool → String → Lane → Lane
  unfolding update
  throttled_edit now allowed guarded text lane =
      update now allowed guarded text (record lane { finalized = false })

  -- the end of `flush`, after its `await`
  abbrev pub resume_with : ℕ → ℕ → Bool → Lane → Lane
  resume_with zero now allowed lane = lane
  resume_with (suc n) now allowed lane =
      let lane' : Lane = record lane { resuming = n } in
      if has_text lane.pending_text && not lane.finalized
      then schedule_flush now allowed lane'
      else lane'

  unfoldable pub resume : ℕ → Bool → Lane → Lane
  unfolding schedule_flush
  resume now allowed lane = resume_with lane.resuming now allowed lane

  abbrev pub settle_ack : AckState → Bool → ℕ → Bool → Lane → Lane
  settle_ack acked ok now allowed lane = lane
  settle_ack failed ok now allowed lane = lane
  settle_ack assumed ok now allowed lane = lane
  settle_ack pending true now allowed lane =
      schedule_flush now allowed (record lane { ack = acked })
  settle_ack pending false now allowed lane = record lane { ack = failed; pending_text = none }

  -- the promise of `awaitAck` has resolved
  unfoldable pub ack_resolves : Bool → ℕ → Bool → Lane → Lane
  unfolding schedule_flush
  ack_resolves ok now allowed lane = settle_ack lane.ack ok now allowed lane

-- `finalize` up to its first `await`; false is the error of a finalized lane
unfoldable pub finalize : String → Bool → Option String → Lane → Lane × Bool
finalize text guarded if_unfetched lane = if lane.finalized then (lane, false) else (
  record (drop_pending lane) {
    finalized = true;
    timer = none;
    finals =
        lane.finals
        ++ record {
          text = text;
          guarded = guarded;
          if_unfetched = if_unfetched;
          stage = if is_clear lane.in_flight then for_ack else for_flight;
        }
          ∷ [];
  },
  true,
)

unfoldable pub cancel_existing : Lane → Lane
cancel_existing lane = record (drop_pending lane) { finalized = true; timer = none }

unfoldable pub nth : ℕ → List Final → Option Final
nth n [] = none
nth zero (f ∷ fs) = some f
nth (suc n) (f ∷ fs) = nth n fs

unfoldable pub put_nth : ℕ → Stage → List Final → List Final
put_nth n stage [] = []
put_nth zero stage (f ∷ fs) = record f { stage = stage } ∷ fs
put_nth (suc n) stage (f ∷ fs) = f ∷ put_nth n stage fs

unfoldable pub drop_nth : ℕ → List Final → List Final
drop_nth n [] = []
drop_nth zero (f ∷ fs) = fs
drop_nth (suc n) (f ∷ fs) = f ∷ drop_nth n fs

abbrev pub fallback : Final → String
fallback f = elim f.if_unfetched [ none ↦ f.text | some text ↦ text ]

-- a `finalize` goes on after `settleAck`, with what that answered
abbrev pub decide : AckState → ℕ → Bool → Final → Lane → Lane
decide pending n allowed f lane = lane
decide failed n allowed f lane =
    if f.guarded && not allowed
    then record lane { finals = drop_nth n lane.finals }
    else record lane {
      sent = lane.sent ++ plain (fallback f) ∷ [];
      finals = put_nth n for_send lane.finals;
    }
decide acked n allowed f lane =
    if f.guarded && not allowed
    then record lane { finals = drop_nth n lane.finals }
    else if is_same f.text lane.last_sent_text
    then record lane { finals = drop_nth n lane.finals }
    else record lane {
      sent = lane.sent ++ final_edit f.text ∷ [];
      finals = put_nth n for_send lane.finals;
    }
decide assumed n allowed f lane =
    if f.guarded && not allowed
    then record lane { finals = drop_nth n lane.finals }
    else if is_same f.text lane.last_sent_text
    then record lane { finals = drop_nth n lane.finals }
    else record lane {
      sent = lane.sent ++ final_edit f.text ∷ [];
      finals = put_nth n for_send lane.finals;
    }

-- `settleAck`: the lane's state, or `failed` where the wait has timed out
abbrev pub settled : AckState → Bool → AckState
settled pending timed_out = if timed_out then failed else pending
settled acked timed_out = acked
settled failed timed_out = failed
settled assumed timed_out = assumed

abbrev pub is_flying : Flight → Bool
is_flying clear = false
is_flying (flying text) = true
is_flying resolved = false

abbrev pub go_from : Stage → ℕ → Bool → Bool → Final → Lane → Lane
go_from for_flight n timed_out allowed f lane =
    if is_flying lane.in_flight
    then lane
    else record lane { finals = put_nth n for_ack lane.finals }
go_from for_ack n timed_out allowed f lane = decide (settled lane.ack timed_out) n allowed f lane
go_from for_send n timed_out allowed f lane = lane

abbrev pub go_on : Option Final → ℕ → Bool → Bool → Lane → Lane
go_on none n timed_out allowed lane = lane
go_on (some f) n timed_out allowed lane = go_from f.stage n timed_out allowed f lane

-- a `finalize` goes on after one of its first two `await`s
unfoldable pub final_goes : ℕ → Bool → Bool → Lane → Lane
unfolding put_nth drop_nth nth
final_goes n timed_out allowed lane = go_on (nth n lane.finals) n timed_out allowed lane

abbrev pub end_final : Stage → Bool → ℕ → Lane → Lane
end_final for_flight reopen n lane = lane
end_final for_ack reopen n lane = lane
end_final for_send reopen n lane = record lane {
  finalized = if reopen then false else lane.finalized;
  finals = drop_nth n lane.finals;
}

abbrev pub end_of : Option Final → Bool → ℕ → Lane → Lane
end_of none reopen n lane = lane
end_of (some f) reopen n lane = end_final f.stage reopen n lane

-- the `send` of a `finalize` has settled; `reopen` is a rejection that is no fence
unfoldable pub final_ends : ℕ → Bool → Lane → Lane
unfolding drop_nth nth
final_ends n reopen lane = end_of (nth n lane.finals) reopen n lane

pub data Event : Type 0 where
  updates throttles : ℕ → Bool → Bool → String → Event
  fires resumes : ℕ → Bool → Event
  lands : ℕ → Event
  fails cancels : Event
  acks : Bool → ℕ → Bool → Event
  finalizes : String → Bool → Option String → Event
  goes : ℕ → Bool → Bool → Event
  ends : ℕ → Bool → Event

module _ (timing : Timing) where
  unfoldable pub step : Event → Lane → Lane
  unfolding update throttled_edit timer_fires resume edit_lands edit_fails cancel_existing
      ack_resolves finalize final_goes final_ends
  step (updates now allowed guarded text) lane = update timing now allowed guarded text lane
  step (throttles now allowed guarded text) lane =
      throttled_edit timing now allowed guarded text lane
  step (fires now allowed) lane = timer_fires now allowed lane
  step (resumes now allowed) lane = resume timing now allowed lane
  step (lands now) lane = edit_lands now lane
  step fails lane = edit_fails lane
  step cancels lane = cancel_existing lane
  step (acks ok now allowed) lane = ack_resolves timing ok now allowed lane
  step (finalizes text guarded if_unfetched) lane = (finalize text guarded if_unfetched lane).0
  step (goes n timed_out allowed) lane = final_goes n timed_out allowed lane
  step (ends n reopen) lane = final_ends n reopen lane

  unfoldable pub run : List Event → Lane → Lane
  unfolding step
  run [] lane = lane
  run (e ∷ es) lane = run es (step e lane)
