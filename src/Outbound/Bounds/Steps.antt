-- ===== src/Outbound/Bounds/Steps.antt =====
-- The bounds of a lane over its events.
use polkadot_chat_agents.Outbound.Bounds.{
  HasFlag, FitsSlot, HasBudget, FitsPhase, IsBounded, FitsBatch, pack_batch-Fits,
}
use polkadot_chat_agents.Outbound.Cases.{
  round_nil, round_spent, round_more, on_ack-cases, grace_fires-cases, disarmed, expire-cases,
  submit_ok-cases, submit_failed-cases, wake-cases, repump-cases,
}
use polkadot_chat_agents.Outbound.Lane.{
  threw, resolve_entries, Env, Entry, Current, Batch, Lane, Phase, idle, woken, submitting,
  apply_supersedes,
}
use polkadot_chat_agents.Outbound.Pump.{
  pump, arm_grace, base_of, is_extending, finish, budget_spent, start_submit, round, after_submit,
  submit_ok, submit_failed, wake, repump, enqueue, free_slot, on_ack, grace_fires, expire, Event,
  enqueued, acked, expired, woke, landed, landed_log, submit_resolved, submit_rejected, grace_fired,
  rescheduled, step,
}
use polkadot_chat_agents.Outbound.Pack.{pack_batch}
use polkadot_chat_agents.Base.{
  ℕ, suc, ◌≤◌, ◌<◌, String, Bool, true, false, Option, none, some, List, [], ◌∷◌, ◌++◌, ◌≡◌, refl,
  arith, leb, length, All, length-append, length-keep_if-le, Bool-cases, inl, inr,
}

module _ {O : Type 0} (env : Env O) where
  IsBounded-same :
      (l l' : Lane O)
      → l'.queue ≡ l.queue
      → l'.current ≡ l.current
      → l'.phase ≡ l.phase
      → IsBounded env l
      → IsBounded env l'
  IsBounded-same l l' q c p h = record {
    backlog = rw q h.backlog;
    slot = rw c h.slot;
    flight = rw (c, p) h.flight;
  }

  arm_grace-IsBounded : (l : Lane O) → IsBounded env l → IsBounded env (arm_grace l)
  unfolding arm_grace
  arm_grace-IsBounded l =
      IsBounded-same l (arm_grace l) (ground arith) (ground arith) (ground arith)

  finish-IsBounded :
      (l : Lane O)
      → length l.queue ≤ env.max_queued
      → FitsSlot env l.current
      → IsBounded env (finish l)
  unfolding finish
  finish-IsBounded l q s =
      let l' : Lane O = record l { phase = idle } in
      let h' : IsBounded env l' = record { backlog = q; slot = s; flight = tt } in
      IsBounded-same l' (finish l) (ground arith) (ground arith) (ground arith) h'

  pump-IsBounded : (l : Lane O) → IsBounded env l → IsBounded env (pump l)
  unfolding pump
  pump-IsBounded l h = go l.phase refl
    where
      go : (ph : Phase O) → l.phase ≡ ph → IsBounded env (pump l)
      go idle e = rw (e, pump) (record { backlog = h.backlog; slot = h.slot; flight = tt })
      go woken e = IsBounded-same l (pump l) (ground arith) (ground arith) (ground arith) h
      go (submitting b) e = IsBounded-same l (pump l) (ground arith) (ground arith) (ground arith) h

  HasBudget-spent :
      (slot : Option (Current O))
      → budget_spent env slot ≡ false
      → HasBudget env (is_extending slot) slot
  HasBudget-spent none e = tt
  HasBudget-spent (some c) e = ground arith

  start_submit-IsBounded :
      (lane : Lane O) (batch : Option (Batch O))
      → length lane.queue ≤ env.max_queued
      → FitsSlot env lane.current
      → FitsBatch env (is_extending lane.current) batch
      → budget_spent env lane.current ≡ false
      → IsBounded env (start_submit env lane batch)
  unfolding start_submit
  start_submit-IsBounded lane none q s f e =
      arm_grace-IsBounded (record lane { phase = idle })
        (record { backlog = q; slot = s; flight = tt })
  start_submit-IsBounded lane (some b) q s f e = record {
    backlog = q;
    slot = s;
    flight = (f.0, f.1, rw f.2 (HasBudget-spent lane.current e));
  }

  flag_of : Option (Current O) → Bool
  flag_of none = false
  flag_of (some c) = c.force_identity

  base-HasFlag :
      (slot : Option (Current O)) → FitsSlot env slot → All (HasFlag (flag_of slot)) (base_of slot)
  unfolding flag_of
  base-HasFlag none h = tt
  base-HasFlag (some c) h = h.1

  round_more-IsBounded :
      (lane : Lane O)
      → length lane.queue ≤ env.max_queued
      → FitsSlot env lane.current
      → budget_spent env lane.current ≡ false
      → IsBounded env (
          start_submit env
            (pack_batch env (is_extending lane.current) (base_of lane.current) lane).0
            (pack_batch env (is_extending lane.current) (base_of lane.current) lane).1)
  round_more-IsBounded lane q s e =
      let fits =
        pack_batch-Fits env (flag_of lane.current) (is_extending lane.current)
          (base_of lane.current) lane (base-HasFlag lane.current s) in
      unfold pack_batch in
      start_submit-IsBounded
        (pack_batch env (is_extending lane.current) (base_of lane.current) lane).0
        (pack_batch env (is_extending lane.current) (base_of lane.current) lane).1
        (omega (arith, fits.1)) s fits.0 e

  round-IsBounded :
      (lane : Lane O)
      → length lane.queue ≤ env.max_queued
      → FitsSlot env lane.current
      → IsBounded env (round env lane)
  round-IsBounded lane q s = go lane.queue refl
    where
      resting : IsBounded env (record lane { phase = idle })
      resting = record { backlog = q; slot = s; flight = tt }

      go : (queue : List (Entry O)) → lane.queue ≡ queue → IsBounded env (round env lane)
      go [] e = rw (round_nil env lane e) resting
      go (x ∷ xs) e = elim (Bool-cases (budget_spent env lane.current)) [
        | inl spent ↦
            rw (round_spent env lane x xs e spent)
              (arm_grace-IsBounded (record lane { phase = idle }) resting)
        | inr left ↦ rw (round_more env lane x xs e left) (round_more-IsBounded lane q s left)
      ]

  after_submit-IsBounded :
      (now : ℕ) (lane : Lane O) (b : Batch O)
      → length lane.queue ≤ env.max_queued
      → FitsSlot env lane.current
      → FitsPhase env lane.current (submitting b)
      → IsBounded env (after_submit env now lane b)
  unfolding after_submit
  after_submit-IsBounded now lane b q s f = elim (Bool-cases b.extending) [
    | inl ext ↦ go lane.current refl ext
    | inr fresh ↦
        let same : after_submit env now lane b ≡ round env (landed env now 0 lane b) =
          ground arith in
        rw same (round-IsBounded (landed env now 0 lane b) q (omega arith, f.1))
  ]
    where
      go :
          (slot : Option (Current O))
          → lane.current ≡ slot
          → b.extending ≡ true
          → IsBounded env (after_submit env now lane b)
      go none e ext =
          let l : Lane O = record lane {
            grace_timer = false;
            log = landed_log env lane b ++ threw ∷ [];
          } in
          let same : after_submit env now lane b ≡ finish l = ground arith in
          rw same (finish-IsBounded l q s)
      go (some c) e ext =
          let same : after_submit env now lane b
              ≡ round env (landed env now (suc c.extensions) lane b) =
            ground arith in
          let room : c.extensions < env.max_extensions = rw (ext, e) at (f.2) in
          rw same (round-IsBounded (landed env now (suc c.extensions) lane b) q (omega arith, f.1))

  apply_supersedes-IsBounded :
      (ids : List String) (lane : Lane O)
      → IsBounded env lane
      → IsBounded env (apply_supersedes ids lane)
  unfolding apply_supersedes
  apply_supersedes-IsBounded ids lane h = record {
    backlog = omega (arith, h.backlog, length-keep_if-le {0} _ lane.queue);
    slot = h.slot;
    flight = h.flight;
  }

  push-IsBounded :
      (lane : Lane O) (e : Entry O)
      → leb env.max_queued (length lane.queue) ≡ false
      → IsBounded env lane
      → IsBounded env
          (record lane { queue = lane.queue ++ e ∷ []; next_serial = suc lane.next_serial })
  push-IsBounded lane e room h = record {
    backlog = rw length-append (ground arith);
    slot = h.slot;
    flight = h.flight;
  }

  enqueue-IsBounded :
      (o : O) (m : Option String) (f : Bool) (ids : List String) (lane : Lane O)
      → IsBounded env lane
      → IsBounded env (enqueue env o m f ids lane).0
  unfolding enqueue
  enqueue-IsBounded o m f ids lane h =
      elim (Bool-cases (leb env.max_queued (length (apply_supersedes ids lane).queue))) [
        | inl full ↦ rw full (apply_supersedes-IsBounded ids lane h)
        | inr room ↦ rw room (
            pump-IsBounded _ (
              push-IsBounded (apply_supersedes ids lane) _ room
                (apply_supersedes-IsBounded ids lane h)))
      ]

  HasBudget-none : (b : Bool) → HasBudget env b none
  HasBudget-none true = tt
  HasBudget-none false = tt

  FitsPhase-none :
      (slot : Option (Current O)) (ph : Phase O) → FitsPhase env slot ph → FitsPhase env none ph
  FitsPhase-none slot idle h = tt
  FitsPhase-none slot woken h = tt
  FitsPhase-none slot (submitting b) h = (h.0, h.1, HasBudget-none b.extending)

  free_slot-IsBounded :
      (ok : Bool) (lane : Lane O) (c : Current O)
      → IsBounded env lane
      → IsBounded env (free_slot env ok lane c)
  unfolding free_slot
  free_slot-IsBounded ok lane c h =
      pump-IsBounded
        (record lane {
          log = lane.log ++ resolve_entries c.entries ok;
          current = none;
          grace_timer = false;
        })
        (record {
          backlog = h.backlog;
          slot = tt;
          flight = FitsPhase-none lane.current lane.phase h.flight;
        })

  on_ack-IsBounded :
      (rid : String) (lane : Lane O) → IsBounded env lane → IsBounded env (on_ack env rid lane)
  on_ack-IsBounded rid lane h = elim (on_ack-cases env lane rid) [
    | inl same ↦ rw same h
    | inr (c, slot, id, freed) ↦ rw freed (free_slot-IsBounded true lane c h)
  ]

  grace_fires-IsBounded :
      (now : ℕ) (lane : Lane O) → IsBounded env lane → IsBounded env (grace_fires env now lane)
  grace_fires-IsBounded now lane h = elim (grace_fires-cases env lane now) [
    | inl (inl same) ↦ rw same h
    | inl (inr off) ↦ rw off (IsBounded-same lane (disarmed env lane) refl refl refl h)
    | inr (c, slot, late, freed) ↦ rw freed (free_slot-IsBounded false lane c h)
  ]

  expire-IsBounded : (lane : Lane O) → IsBounded env lane → IsBounded env (expire env lane).0
  expire-IsBounded lane h = elim (expire-cases env lane) [
    | inl same ↦ rw same h
    | inr (rest, gone) ↦ rw gone (record { backlog = omega arith; slot = tt; flight = tt })
  ]

  submit_ok-IsBounded :
      (now : ℕ) (lane : Lane O) → IsBounded env lane → IsBounded env (submit_ok env now lane)
  submit_ok-IsBounded now lane h = elim (submit_ok-cases env lane now) [
    | inl same ↦ rw same h
    | inr (b, flying, landing) ↦
        rw landing (after_submit-IsBounded now lane b h.backlog h.slot (rw flying at h.flight))
  ]

  submit_failed-IsBounded :
      (lane : Lane O) → IsBounded env lane → IsBounded env (submit_failed env lane)
  submit_failed-IsBounded lane h = elim (submit_failed-cases env lane) [
    | inl same ↦ rw same h
    | inr (b, flying, failed) ↦
        rw failed (record { backlog = h.backlog; slot = h.slot; flight = tt })
  ]

  wake-IsBounded : (lane : Lane O) → IsBounded env lane → IsBounded env (wake env lane)
  wake-IsBounded lane h = elim (wake-cases env lane) [
    | inl same ↦ rw same h
    | inr (up, more) ↦ rw more (round-IsBounded lane h.backlog h.slot)
  ]

  repump-IsBounded : (lane : Lane O) → IsBounded env lane → IsBounded env (repump env lane)
  repump-IsBounded lane h = elim (repump-cases env lane) [
    | inl same ↦ rw same h
    | inr again ↦ rw again (
        pump-IsBounded (record lane { scheduled = false })
          (IsBounded-same lane (record lane { scheduled = false }) refl refl refl h))
  ]

  -- Every event of a lane keeps its bounds: the backlog stays within `maxQueued`, what is handed to
  -- `submitPayload` fits `maxPayloadBytes`, no statement counts more than `maxExtensions`
  -- extensions, and the entries of a statement, in the slot or in flight, all have its encryption flag.
  pub step-IsBounded :
      (e : Event O) (lane : Lane O) → IsBounded env lane → IsBounded env (step env e lane)
  unfolding step
  step-IsBounded (enqueued o m f ids) lane h = enqueue-IsBounded o m f ids lane h
  step-IsBounded (acked rid) lane h = on_ack-IsBounded rid lane h
  step-IsBounded expired lane h = expire-IsBounded lane h
  step-IsBounded woke lane h = wake-IsBounded lane h
  step-IsBounded (submit_resolved now) lane h = submit_ok-IsBounded now lane h
  step-IsBounded submit_rejected lane h = submit_failed-IsBounded lane h
  step-IsBounded (grace_fired now) lane h = grace_fires-IsBounded now lane h
  step-IsBounded rescheduled lane h = repump-IsBounded lane h
