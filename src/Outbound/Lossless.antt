-- ===== src/Outbound/Lossless.antt =====
-- What a statement carries that replaces the one in the slot.
use polkadot_chat_agents.Base.{
  ℕ, ◌≤◌, Option, none, some, List, [], ◌∷◌, ◌≡◌, refl, arith, Bool-cases, inl, inr,
}
use polkadot_chat_agents.Outbound.Lane.{
  Env, Entry, Current, Batch, Lane, Phase, idle, woken, submitting,
}
use polkadot_chat_agents.Outbound.Pump.{
  is_extending, base_of, arm_grace, budget_spent, start_submit, round, wake,
}
use polkadot_chat_agents.Outbound.Sealed.{IsEncoded, EncodedIfSome, pack_batch-encoded}
use polkadot_chat_agents.Outbound.Cases.{round_nil, round_spent, round_more, packed}
use polkadot_chat_agents.Outbound.Accounting.{expected, IsAccounted}
use polkadot_chat_agents.Outbound.Accounting.Packing.Locals.{LosslessIfSome, pack_batch-Packed}

expected_small : (n k : ℕ) → expected n k ≤ 1
expected_small n k = ground arith

module _ {O : Type 0} (env : Env O) where
  abbrev pub LosslessPhase : Option (Current O) → Phase O → Type 0
  LosslessPhase slot (submitting b) = LosslessIfSome env slot (some b) × IsEncoded env b
  LosslessPhase slot _ = Unit

  arm_grace-lossless :
      (slot : Option (Current O)) (lane : Lane O)
      → lane.phase ≡ idle
      → LosslessPhase slot (arm_grace lane).phase
  unfolding arm_grace
  arm_grace-lossless slot lane e =
      let same : (arm_grace lane).phase ≡ idle = ground arith in rw same tt

  start_submit-lossless :
      (slot : Option (Current O)) (lane : Lane O) (batch : Option (Batch O))
      → LosslessIfSome env slot batch
      → EncodedIfSome env batch
      → LosslessPhase slot (start_submit env lane batch).phase
  unfolding start_submit
  start_submit-lossless slot lane none h sealed =
      arm_grace-lossless slot (record lane { phase = idle }) refl
  start_submit-lossless slot lane (some b) h sealed = (h, sealed)

  -- A round that a woken `pump` starts never loses a message that the peer may still fetch: what it
  -- submits over a statement in the slot holds all entries of that statement, in order, but those
  -- that its new entries supersede, followed by the new ones, and the payload is what `encodeBatch`
  -- returns for all of these entries. The lane is one with its accounts in order.
  pub wake-lossless :
      (lane : Lane O)
      → IsAccounted lane
      → lane.phase ≡ woken
      → LosslessPhase lane.current (wake env lane).phase
  unfolding wake
  wake-lossless lane h e = rw (e, wake) (go lane.queue refl)
    where
      go :
          (queue : List (Entry O))
          → lane.queue ≡ queue
          → LosslessPhase lane.current (round env lane).phase
      go [] q = rw (round_nil env lane q) tt
      go (x ∷ xs) q = elim (Bool-cases (budget_spent env lane.current)) [
        | inl spent ↦
            rw (round_spent env lane x xs q spent)
              (arm_grace-lossless lane.current (record lane { phase = idle }) refl)
        | inr left ↦ rw (round_more env lane x xs q left) (
            start_submit-lossless lane.current (packed env lane) _
              (pack_batch-Packed env lane h.clean (λ n.
                omega (arith, rw e at (h.once n), expected_small n lane.next_serial))).lossless
              (pack_batch-encoded env (is_extending lane.current) (base_of lane.current) lane))
      ]
