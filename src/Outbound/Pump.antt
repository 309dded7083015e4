-- ===== src/Outbound/Pump.antt =====
-- The events of one lane: the calls of its interface, the timer, and the continuations of `pump`.
use polkadot_chat_agents.Base.{
  ℕ, suc, ◌+◌, String, Bool, true, false, Option, none, some, List, [], ◌∷◌, ◌++◌, ltb, leb, ite,
  key_dec, length, if◌then◌else◌,
}
use polkadot_chat_agents.Outbound.Lane.{
  Outcome, Env, Entry, Current, Batch, Lane, idle, woken, submitting, threw, new_lane,
  resolve_entries, resolve_submitted, reject_entries, apply_supersedes,
}
use polkadot_chat_agents.Outbound.Pack.{pack_batch}

module _ {O : Type 0} where
  -- `pump` up to its first `await`
  unfoldable pub pump : Lane O → Lane O
  pump lane = elim lane.phase [ idle ↦ record lane { phase = woken } | _ ↦ lane ]

  -- `armGrace`. When the timer is due is left open: its callback reads the clock again.
  unfoldable pub arm_grace : Lane O → Lane O
  arm_grace lane = elim lane.current [
    | none ↦ lane
    | some _ ↦ elim lane.queue [ [] ↦ lane | _ ∷ _ ↦ record lane { grace_timer = true } ]
  ]

  abbrev pub base_of : Option (Current O) → List (Entry O)
  base_of none = []
  base_of (some c) = c.entries

  abbrev pub is_extending : Option (Current O) → Bool
  is_extending none = false
  is_extending (some c) = true

  abbrev pub next_extensions : Option (Current O) → ℕ
  next_extensions none = 0
  next_extensions (some c) = suc c.extensions

  -- the `finally` block, where `pump` is not blocked
  unfoldable pub finish : Lane O → Lane O
  finish lane = elim lane.queue [
    | [] ↦ record lane { phase = idle }
    | _ ∷ _ ↦ record lane { phase = idle; scheduled = true }
  ]

  module _ (env : Env O) where
    abbrev pub budget_spent : Option (Current O) → Bool
    budget_spent none = false
    budget_spent (some c) = leb env.max_extensions c.extensions

    unfoldable pub start_submit : Lane O → Option (Batch O) → Lane O
    unfolding arm_grace
    start_submit lane none = arm_grace (record lane { phase = idle })
    start_submit lane (some batch) = record lane { phase = submitting batch }

    -- one round of the `while` loop of `pump`, up to its `await` or to the end of `pump`
    unfoldable pub round : Lane O → Lane O
    unfolding finish arm_grace start_submit pack_batch
    round lane = elim lane.queue [
      | [] ↦ finish lane
      | _ ∷ _ ↦
          if budget_spent lane.current
          then arm_grace (record lane { phase = idle })
          else let (lane', batch) =
              pack_batch env (is_extending lane.current) (base_of lane.current) lane in
            start_submit lane' batch
    ]

    -- the promises that a resolved `submitPayload` settles
    unfoldable pub landed_log : Lane O → Batch O → List Outcome
    unfolding resolve_entries resolve_submitted
    landed_log lane batch =
        lane.log ++ (resolve_entries batch.dropped false ++ resolve_submitted batch.fresh)

    -- the lane once the batch stands in the slot
    abbrev pub landed : ℕ → ℕ → Lane O → Batch O → Lane O
    landed now extensions lane batch = record lane {
      grace_timer = false;
      log = landed_log lane batch;
      current = some (record {
        request_id = batch.request_id;
        entries = batch.entries;
        extensions = extensions;
        force_identity = batch.flag;
        submitted_at = now;
      });
    }

    -- `submitPayload` has resolved: the rest of the round, and the next one. An extension whose
    -- base was cleared meanwhile reads a field of `null` and throws after the promises are resolved.
    unfoldable pub after_submit : ℕ → Lane O → Batch O → Lane O
    unfolding round finish landed_log
    after_submit now lane batch =
        if batch.extending
        then elim lane.current [
          | none ↦
              finish
                (record lane { grace_timer = false; log = landed_log lane batch ++ threw ∷ [] })
          | some c ↦ round (landed now (suc c.extensions) lane batch)
        ]
        else round (landed now 0 lane batch)

    unfoldable pub submit_ok : ℕ → Lane O → Lane O
    unfolding after_submit
    submit_ok now lane = elim lane.phase [
      | submitting batch ↦ after_submit now lane batch
      | _ ↦ lane
    ]

    -- `submitPayload` has rejected: only the new entries fail
    unfoldable pub submit_failed : Lane O → Lane O
    unfolding reject_entries
    submit_failed lane = elim lane.phase [
      | submitting batch ↦ record lane {
        phase = idle;
        log = lane.log ++ reject_entries batch.fresh;
      }
      | _ ↦ lane
    ]

    -- the `setImmediate` of `pump` has run
    unfoldable pub wake : Lane O → Lane O
    unfolding round
    wake lane = elim lane.phase [ woken ↦ round lane | _ ↦ lane ]

    -- the `setImmediate` of the `finally` block
    unfoldable pub repump : Lane O → Lane O
    unfolding pump
    repump lane = if lane.scheduled then pump (record lane { scheduled = false }) else lane

    unfoldable pub enqueue : O → Option String → Bool → List String → Lane O → Lane O × Bool
    unfolding apply_supersedes pump
    enqueue opaque message_id force_identity supersedes lane =
        let lane' = apply_supersedes supersedes lane in
        if leb env.max_queued (length lane'.queue)
        then (lane', false)
        else (let entry : Entry O = record {
          serial = lane'.next_serial;
          opaque = opaque;
          message_id = message_id;
          force_identity = force_identity;
          supersedes = supersedes;
        } in
            (
              pump (record lane' {
                queue = lane'.queue ++ entry ∷ [];
                next_serial = suc lane'.next_serial;
              }),
              true,
            ))

    -- the current statement leaves its slot with `ok`, and `pump` is called
    unfoldable pub free_slot : Bool → Lane O → Current O → Lane O
    unfolding pump resolve_entries
    free_slot ok lane c = pump (record lane {
      log = lane.log ++ resolve_entries c.entries ok;
      current = none;
      grace_timer = false;
    })

    unfoldable pub on_ack : String → Lane O → Lane O
    unfolding free_slot
    on_ack request_id lane = elim lane.current [
      | none ↦ lane
      | some c ↦ ite (key_dec c.request_id request_id) (free_slot true lane c) lane
    ]

    -- the timer's callback, at the time `now`
    unfoldable pub grace_fires : ℕ → Lane O → Lane O
    unfolding free_slot
    grace_fires now lane =
        if lane.grace_timer
        then elim lane.current [
          | none ↦ record lane { grace_timer = false }
          | some c ↦ elim lane.queue [
            | [] ↦ record lane { grace_timer = false }
            | _ ∷ _ ↦
                if ltb now (c.submitted_at + env.ack_grace_ms) then lane else free_slot false lane c
          ]
        ]
        else lane

    -- `expire`; a later call for the peer finds a new lane
    unfoldable pub expire : Lane O → Lane O × Bool
    unfolding resolve_entries reject_entries
    expire lane = elim lane.phase [
      | idle ↦ (
        record (new_lane {O = O}) {
          scheduled = lane.scheduled;
          next_serial = lane.next_serial;
          calls = lane.calls;
          log =
              lane.log
              ++ (resolve_entries (base_of lane.current) false ++ reject_entries lane.queue);
        },
        true,
      )
      | _ ↦ (lane, false)
    ]

pub data Event (O : Type 0) : Type 0 where
  enqueued : O → Option String → Bool → List String → Event O
  acked : String → Event O
  expired : Event O
  woke : Event O
  submit_resolved : ℕ → Event O
  submit_rejected : Event O
  grace_fired : ℕ → Event O
  rescheduled : Event O

unfoldable pub step : {O : Type 0} → Env O → Event O → Lane O → Lane O
unfolding enqueue on_ack expire wake submit_ok submit_failed grace_fires repump
step env (enqueued opaque message_id force_identity supersedes) lane =
    (enqueue env opaque message_id force_identity supersedes lane).0
step env (acked request_id) lane = on_ack env request_id lane
step env expired lane = (expire env lane).0
step env woke lane = wake env lane
step env (submit_resolved now) lane = submit_ok env now lane
step env submit_rejected lane = submit_failed env lane
step env (grace_fired now) lane = grace_fires env now lane
step env rescheduled lane = repump env lane
