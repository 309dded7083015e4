-- ===== src/Outbound/Cases.antt =====
-- The ways a round of `pump` can go, and the other events that branch.
use polkadot_chat_agents.Outbound.Lane.{
  Env, Entry, Current, Batch, Lane, Phase, idle, woken, submitting, new_lane, resolve_entries,
  reject_entries,
}
use polkadot_chat_agents.Outbound.Pack.{pack_batch}
use polkadot_chat_agents.Outbound.Pump.{
  pump, arm_grace, base_of, is_extending, finish, budget_spent, start_submit, round, free_slot,
  on_ack, grace_fires, expire, after_submit, submit_ok, submit_failed, wake, repump,
}
use polkadot_chat_agents.Base.{
  ℕ, ◌+◌, ◌≤◌, String, true, false, Option, none, some, List, [], ◌∷◌, ◌++◌, ◌≡◌, refl, arith, ltb,
  Bool-cases, inl, inr, key_dec, not_ltb→le, ◌⊎◌,
}

-- the lane and the batch that `packBatch` returns to a round
abbrev pub packed : {O : Type 0} → Env O → Lane O → Lane O
packed env lane = (pack_batch env (is_extending lane.current) (base_of lane.current) lane).0

module _ {O : Type 0} (env : Env O) (lane : Lane O) where
  pub round_nil : lane.queue ≡ [] → round env lane ≡ record lane { phase = idle }
  unfolding round finish
  round_nil e = ground arith

  pub round_spent :
      (x : Entry O) (xs : List (Entry O))
      → lane.queue ≡ x ∷ xs
      → budget_spent env lane.current ≡ true
      → round env lane ≡ arm_grace (record lane { phase = idle })
  unfolding round
  round_spent x xs e spent = ground arith

  pub round_more :
      (x : Entry O) (xs : List (Entry O))
      → lane.queue ≡ x ∷ xs
      → budget_spent env lane.current ≡ false
      → round env lane
        ≡ start_submit env
            (packed env lane)
            (pack_batch env (is_extending lane.current) (base_of lane.current) lane).1
  unfolding round
  round_more x xs e left = ground arith

  pub on_ack-cases :
      (rid : String)
      → (on_ack env rid lane ≡ lane)
        ⊎ ((c : Current O) × (lane.current ≡ some c)
            × (c.request_id ≡ rid)
            × (on_ack env rid lane ≡ free_slot env true lane c))
  unfolding on_ack
  on_ack-cases rid = go lane.current refl
    where
      go :
          (slot : Option (Current O))
          → lane.current ≡ slot
          → (on_ack env rid lane ≡ lane)
            ⊎ ((c : Current O) × (lane.current ≡ some c)
                × (c.request_id ≡ rid)
                × (on_ack env rid lane ≡ free_slot env true lane c))
      go none e = inl (ground arith)
      go (some c) e = elim (key_dec c.request_id rid) [
        | yes p ↦ inr (c, e, p, ground arith)
        | no p ↦ inl (ground arith)
      ]

  abbrev pub disarmed : Lane O
  disarmed = record lane { grace_timer = false }

  pub grace_fires-cases :
      (now : ℕ)
      → ((grace_fires env now lane ≡ lane) ⊎ (grace_fires env now lane ≡ disarmed))
        ⊎ ((c : Current O) × (lane.current ≡ some c)
            × (c.submitted_at + env.ack_grace_ms ≤ now)
            × (grace_fires env now lane ≡ free_slot env false lane c))
  unfolding grace_fires
  grace_fires-cases now = go lane.current refl lane.queue refl
    where
      go :
          (slot : Option (Current O))
          → lane.current ≡ slot
          → (queue : List (Entry O)) → lane.queue ≡ queue
          → ((grace_fires env now lane ≡ lane) ⊎ (grace_fires env now lane ≡ disarmed))
            ⊎ ((c : Current O) × (lane.current ≡ some c)
                × (c.submitted_at + env.ack_grace_ms ≤ now)
                × (grace_fires env now lane ≡ free_slot env false lane c))
      go none e queue q = inl (ground arith)
      go (some c) e [] q = inl (ground arith)
      go (some c) e (x ∷ xs) q = elim (Bool-cases lane.grace_timer) [
        | inr off ↦ inl (inl (ground arith))
        | inl on ↦ elim (Bool-cases (ltb now (c.submitted_at + env.ack_grace_ms))) [
          | inl early ↦ inl (inl (ground arith))
          | inr late ↦
              inr (c, e, not_ltb→le now (c.submitted_at + env.ack_grace_ms) late, ground arith)
        ]
      ]

  -- the lane that a later call for an expired peer finds
  abbrev pub renewed : Lane O
  renewed = record (new_lane {O = O}) {
    scheduled = lane.scheduled;
    next_serial = lane.next_serial;
    calls = lane.calls;
    log = lane.log ++ (resolve_entries (base_of lane.current) false ++ reject_entries lane.queue);
  }

  pub expire-cases :
      ((expire env lane).0 ≡ lane) ⊎ ((lane.phase ≡ idle) × ((expire env lane).0 ≡ renewed))
  unfolding expire
  expire-cases = go lane.phase refl
    where
      go :
          (ph : Phase O)
          → lane.phase ≡ ph
          → ((expire env lane).0 ≡ lane) ⊎ ((lane.phase ≡ idle) × ((expire env lane).0 ≡ renewed))
      go idle e = inr (e, ground arith)
      go woken e = inl (ground arith)
      go (submitting b) e = inl (ground arith)

  pub submit_ok-cases :
      (now : ℕ)
      → (submit_ok env now lane ≡ lane)
        ⊎ ((b : Batch O) × (lane.phase ≡ submitting b)
            × (submit_ok env now lane ≡ after_submit env now lane b))
  unfolding submit_ok
  submit_ok-cases now = go lane.phase refl
    where
      go :
          (ph : Phase O)
          → lane.phase ≡ ph
          → (submit_ok env now lane ≡ lane)
            ⊎ ((b : Batch O) × (lane.phase ≡ submitting b)
                × (submit_ok env now lane ≡ after_submit env now lane b))
      go idle e = inl (ground arith)
      go woken e = inl (ground arith)
      go (submitting b) e = inr (b, e, ground arith)

  pub submit_failed-cases :
      (submit_failed env lane ≡ lane)
      ⊎ ((b : Batch O) × (lane.phase ≡ submitting b)
          × (submit_failed env lane
              ≡ record lane { phase = idle; log = lane.log ++ reject_entries b.fresh }))
  unfolding submit_failed
  submit_failed-cases = go lane.phase refl
    where
      go :
          (ph : Phase O)
          → lane.phase ≡ ph
          → (submit_failed env lane ≡ lane)
            ⊎ ((b : Batch O) × (lane.phase ≡ submitting b)
                × (submit_failed env lane
                    ≡ record lane { phase = idle; log = lane.log ++ reject_entries b.fresh }))
      go idle e = inl (ground arith)
      go woken e = inl (ground arith)
      go (submitting b) e = inr (b, e, ground arith)

  pub wake-cases :
      (wake env lane ≡ lane) ⊎ ((lane.phase ≡ woken) × (wake env lane ≡ round env lane))
  unfolding wake
  wake-cases = go lane.phase refl
    where
      go :
          (ph : Phase O)
          → lane.phase ≡ ph
          → (wake env lane ≡ lane) ⊎ ((lane.phase ≡ woken) × (wake env lane ≡ round env lane))
      go idle e = inl (ground arith)
      go woken e = inr (e, ground arith)
      go (submitting b) e = inl (ground arith)

  pub repump-cases :
      (repump env lane ≡ lane) ⊎ (repump env lane ≡ pump (record lane { scheduled = false }))
  unfolding repump
  repump-cases = ground arith
