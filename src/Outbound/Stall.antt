-- ===== src/Outbound/Stall.antt =====
-- When `pump` ends with messages queued and nothing to wake it.
use polkadot_chat_agents.Base.{
  ℕ, suc, Bool, true, false, none, List, [], ◌∷◌, ◌++◌, ◌≡◌, refl, arith,
}
use polkadot_chat_agents.Outbound.Lane.{Env, Entry, Lane, idle, woken, Outcome, reject_entries}
use polkadot_chat_agents.Outbound.Pack.{
  Packing, refuse, pack_batch, pack_loop, consider, candidate, same_flag,
}
use polkadot_chat_agents.Outbound.Pump.{round, wake, start_submit, arm_grace}

same_flag_self : (f : Bool) → same_flag f f ≡ true
same_flag_self true = refl
same_flag_self false = refl

module _ {O : Type 0} (env : Env O) where
  abbrev fresh_packing : ℕ → List Outcome → Packing O
  fresh_packing calls log = record { entries = []; sealed = none; calls = calls; log = log }

  consider_refuses :
      (calls : ℕ) (log : List Outcome) (x : Entry O)
      → env.encode (env.request_id calls) (x.opaque ∷ []) x.force_identity ≡ none
      → consider env x.force_identity 0 (fresh_packing calls log) x
        ≡ (refuse env (fresh_packing calls log) x, true)
  unfolding consider candidate
  consider_refuses calls log x fails = rw (same_flag_self x.force_identity) (rw fails refl)

  consider_stops :
      (flag : Bool) (p : Packing O) (y : Entry O)
      → same_flag y.force_identity flag ≡ false
      → consider env flag 0 p y ≡ (p, false)
  unfolding consider
  consider_stops flag p y other = rw other refl

  pack_loop_stalls :
      (calls : ℕ) (log : List Outcome) (x y : Entry O) (rest : List (Entry O))
      → env.encode (env.request_id calls) (x.opaque ∷ []) x.force_identity ≡ none
      → same_flag y.force_identity x.force_identity ≡ false
      → pack_loop env x.force_identity 0 (x ∷ y ∷ rest) (fresh_packing calls log)
        ≡ (refuse env (fresh_packing calls log) x, y ∷ rest)
  unfolding pack_loop
  pack_loop_stalls calls log x y rest fails other = ground (
    arith,
    consider_refuses calls log x fails,
    consider_stops x.force_identity (refuse env (fresh_packing calls log) x) y other,
  )

  pack_batch_stalls :
      (lane : Lane O) (x y : Entry O) (rest : List (Entry O))
      → lane.queue ≡ x ∷ y ∷ rest
      → env.encode (env.request_id lane.calls) (x.opaque ∷ []) x.force_identity ≡ none
      → same_flag y.force_identity x.force_identity ≡ false
      → pack_batch env false [] lane ≡ (
        record lane {
          queue = y ∷ rest;
          calls = suc lane.calls;
          log = lane.log ++ reject_entries (x ∷ []);
        },
        none,
      )
  unfolding pack_batch
  pack_batch_stalls lane x y rest q fails other =
      ground (arith, pack_loop_stalls lane.calls lane.log x y rest fails other)

  -- With no statement in the slot, a queue whose first message fails to encode, and whose second has
  -- the other encryption flag, is left with no one to wake it: `pump` ends, the second message stays
  -- queued, and neither the grace timer nor another call of `pump` is due.
  pub wake-stalls :
      (lane : Lane O) (x y : Entry O) (rest : List (Entry O))
      → lane.phase ≡ woken
      → lane.current ≡ none
      → lane.grace_timer ≡ false
      → lane.scheduled ≡ false
      → lane.queue ≡ x ∷ y ∷ rest
      → env.encode (env.request_id lane.calls) (x.opaque ∷ []) x.force_identity ≡ none
      → same_flag y.force_identity x.force_identity ≡ false
      → ((wake env lane).queue ≡ y ∷ rest)
        × ((wake env lane).phase ≡ idle)
        × ((wake env lane).grace_timer ≡ false)
        × ((wake env lane).scheduled ≡ false)
        × ((wake env lane).current ≡ none)
  unfolding wake round start_submit arm_grace
  wake-stalls lane x y rest p c g s q fails other =
      ground (arith, pack_batch_stalls lane x y rest q fails other)
