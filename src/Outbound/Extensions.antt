-- ===== src/Outbound/Extensions.antt =====
-- How often the statement in the slot has been extended, counted over the events of a lane.
use polkadot_chat_agents.Base.{
  ℕ, suc, String, Bool, true, false, Option, none, some, List, [], ◌∷◌, ◌++◌, ◌≡◌, refl, ap, subst,
  sym, ◌∙◌, arith, leb, length, Bool-cases, inl, inr, if◌then◌else◌,
}
use polkadot_chat_agents.Outbound.Lane.{
  threw, Env, Entry, Current, Batch, Lane, Phase, idle, woken, submitting, apply_supersedes,
}
use polkadot_chat_agents.Outbound.Pack.{pack_batch}
use polkadot_chat_agents.Outbound.Pump.{
  pump, arm_grace, base_of, is_extending, finish, budget_spent, start_submit, round, after_submit,
  submit_ok, enqueue, free_slot, Event, enqueued, acked, expired, woke, landed, landed_log,
  submit_resolved, submit_rejected, grace_fired, rescheduled, step,
}
use polkadot_chat_agents.Outbound.Cases.{
  round_nil, round_spent, round_more, on_ack-cases, grace_fires-cases, expire-cases,
  submit_failed-cases, wake-cases, repump-cases,
}

module _ {O : Type 0} where
  -- A submit that resolves extends the statement, or starts one that has not been extended.
  abbrev pub extensions_in : Phase O → ℕ → ℕ
  extensions_in idle n = n
  extensions_in woken n = n
  extensions_in (submitting b) n = if b.extending then suc n else 0

  abbrev pub extensions_after : Event O → Lane O → ℕ → ℕ
  extensions_after (submit_resolved now) lane n = extensions_in lane.phase n
  extensions_after _ lane n = n

  -- the statement in the slot, where there is one, has that many extensions on its counter
  abbrev pub CountsSlot : Option (Current O) → ℕ → Type 0
  CountsSlot none n = Unit
  CountsSlot (some c) n = c.extensions ≡ n

  abbrev pub Counts : Lane O → ℕ → Type 0
  Counts lane n = CountsSlot lane.current n

  Counts-same : (l l' : Lane O) (n : ℕ) → l'.current ≡ l.current → Counts l n → Counts l' n
  Counts-same l l' n e h = rw e h

  pump-current : (l : Lane O) → (pump l).current ≡ l.current
  unfolding pump
  pump-current l = ground arith

  arm_grace-current : (l : Lane O) → (arm_grace l).current ≡ l.current
  unfolding arm_grace
  arm_grace-current l = ground arith

  finish-current : (l : Lane O) → (finish l).current ≡ l.current
  unfolding finish
  finish-current l = ground arith

  module _ (env : Env O) where
    start_submit-current :
        (l : Lane O) (batch : Option (Batch O)) → (start_submit env l batch).current ≡ l.current
    unfolding start_submit
    start_submit-current l none = arm_grace-current (record l { phase = idle })
    start_submit-current l (some b) = refl

    packed-current :
        (extending : Bool) (base : List (Entry O)) (l : Lane O)
        → (pack_batch env extending base l).0.current ≡ l.current
    unfolding pack_batch
    packed-current extending base l = refl

    round-current : (l : Lane O) → (round env l).current ≡ l.current
    round-current l = go l.queue refl
      where
        go : (queue : List (Entry O)) → l.queue ≡ queue → (round env l).current ≡ l.current
        go [] e = rw (round_nil env l e) refl
        go (x ∷ xs) e = elim (Bool-cases (budget_spent env l.current)) [
          | inl spent ↦
              rw (round_spent env l x xs e spent) (arm_grace-current (record l { phase = idle }))
          | inr left ↦ rw (round_more env l x xs e left) (
              start_submit-current (pack_batch env (is_extending l.current) (base_of l.current) l).0
                (pack_batch env (is_extending l.current) (base_of l.current) l).1
              ∙ packed-current (is_extending l.current) (base_of l.current) l)
        ]

    free_slot-current :
        (ok : Bool) (l : Lane O) (c : Current O) → (free_slot env ok l c).current ≡ none
    unfolding free_slot
    free_slot-current ok l c = pump-current _

    enqueue-current :
        (o : O) (m : Option String) (f : Bool) (ids : List String) (l : Lane O)
        → (enqueue env o m f ids l).0.current ≡ l.current
    unfolding enqueue
    enqueue-current o m f ids l =
        elim (Bool-cases (leb env.max_queued (length (apply_supersedes ids l).queue))) [
          | inl full ↦ rw full (unfold apply_supersedes in refl)
          | inr room ↦ rw room (unfold apply_supersedes in pump-current _)
        ]

    after_submit-Counts :
        (now n : ℕ) (l : Lane O) (b : Batch O)
        → Counts l n
        → Counts (after_submit env now l b) (if b.extending then suc n else 0)
    unfolding after_submit
    after_submit-Counts now n l b h = elim (Bool-cases b.extending) [
      | inl ext ↦
          subst (Counts (after_submit env now l b)) (ap (λ x. if x then suc n else 0) (sym ext))
            (go l.current refl ext)
      | inr fresh ↦ rw (fresh, round-current (landed env now 0 l b)) refl
    ]
      where
        go :
            (slot : Option (Current O))
            → l.current ≡ slot
            → b.extending ≡ true
            → Counts (after_submit env now l b) (suc n)
        go none e ext =
            let l' : Lane O = record l {
              grace_timer = false;
              log = landed_log env l b ++ threw ∷ [];
            } in
            let same : after_submit env now l b ≡ finish l' = ground arith in
            rw (same, finish-current l', e) tt
        go (some c) e ext =
            let same : after_submit env now l b
                ≡ round env (landed env now (suc c.extensions) l b) =
              ground arith in
            let counted : c.extensions ≡ n = rw e at h in
            rw (same, round-current (landed env now (suc c.extensions) l b)) (ap suc counted)

    freed : (l l' : Lane O) (n : ℕ) → l'.current ≡ none → Counts l' n
    freed l l' n e = rw e tt

    submit_ok-Counts :
        (now : ℕ) (l : Lane O) (n : ℕ)
        → Counts l n
        → Counts (submit_ok env now l) (extensions_in l.phase n)
    unfolding submit_ok
    submit_ok-Counts now l n h = go l.phase refl
      where
        go : (ph : Phase O) → l.phase ≡ ph → Counts (submit_ok env now l) (extensions_in ph n)
        go idle e = rw (e, submit_ok) h
        go woken e = rw (e, submit_ok) h
        go (submitting b) e = rw (e, submit_ok) (after_submit-Counts now n l b h)

    pub step-Counts :
        (e : Event O) (l : Lane O) (n : ℕ)
        → Counts l n
        → Counts (step env e l) (extensions_after e l n)
    unfolding step
    step-Counts (enqueued o m f ids) l n h = rw (enqueue-current o m f ids l) h
    step-Counts (acked rid) l n h = elim (on_ack-cases env l rid) [
      | inl same ↦ rw same h
      | inr (c, slot, id, gone) ↦ rw (gone, free_slot-current true l c) tt
    ]
    step-Counts expired l n h = elim (expire-cases env l) [
      | inl same ↦ rw same h
      | inr (rest, gone) ↦ rw gone tt
    ]
    step-Counts woke l n h = elim (wake-cases env l) [
      | inl same ↦ rw same h
      | inr (up, more) ↦ rw (more, round-current l) h
    ]
    step-Counts (submit_resolved now) l n h = submit_ok-Counts now l n h
    step-Counts submit_rejected l n h = elim (submit_failed-cases env l) [
      | inl same ↦ rw same h
      | inr (b, flying, failed) ↦ rw failed h
    ]
    step-Counts (grace_fired now) l n h = elim (grace_fires-cases env l now) [
      | inl (inl same) ↦ rw same h
      | inl (inr off) ↦ rw off h
      | inr (c, slot, late, gone) ↦ rw (gone, free_slot-current false l c) tt
    ]
    step-Counts rescheduled l n h = elim (repump-cases env l) [
      | inl same ↦ rw same h
      | inr again ↦ rw (again, pump-current (record l { scheduled = false })) h
    ]

    -- how often the statement in the slot has been extended after a history
    unfoldable pub extended : List (Event O) → Lane O → ℕ → ℕ
    extended [] l n = n
    extended (e ∷ es) l n = extended es (step env e l) (extensions_after e l n)
