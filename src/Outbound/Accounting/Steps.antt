-- ===== src/Outbound/Accounting/Steps.antt =====
-- The accounts of a lane over its events.
pub mod Events
use polkadot_chat_agents.Base.{
  ℕ, suc, ◌+◌, ◌≤◌, true, false, Option, none, some, List, [], ◌∷◌, ◌++◌, ◌≡◌, refl, arith,
  Bool-cases, inl, inr,
}
use polkadot_chat_agents.Outbound.Lane.{
  Env, Entry, Current, Batch, Lane, Phase, idle, woken, submitting, resolve_entries,
  resolve_submitted,
}
use polkadot_chat_agents.Outbound.Pump.{
  pump, arm_grace, base_of, budget_spent, start_submit, round, after_submit, landed, landed_log,
}
use polkadot_chat_agents.Outbound.Cases.{round_nil, round_spent, round_more}
use polkadot_chat_agents.Outbound.Accounting.{
  IsRaced, tally, tally-nil, expected, settled_or_held, IsClean, Agrees, IsAccounted,
  deliveries-append, deliveries-resolve_entries, deliveries-resolve_submitted,
}
use polkadot_chat_agents.Outbound.Accounting.Packing.Locals.{Packed, pack_batch-Packed}

expected-le-one : (n k : ℕ) → expected n k ≤ 1
expected-le-one n k = ground arith

module _ {O : Type 0} (env : Env O) where
  -- the accounts of a lane with nothing in flight
  abbrev Holds : Lane O → Type 0
  Holds lane = ((n : ℕ) → settled_or_held lane n ≡ expected n lane.next_serial) × IsClean lane.queue

  resting-IsAccounted : (lane : Lane O) → Holds lane → IsAccounted (record lane { phase = idle })
  resting-IsAccounted lane h = record { once = λ n. omega (arith, h.0 n); clean = h.1; flight = tt }

  IsAccounted-same :
      (l l' : Lane O)
      → l'.queue ≡ l.queue
      → l'.current ≡ l.current
      → l'.phase ≡ l.phase
      → l'.log ≡ l.log
      → l'.next_serial ≡ l.next_serial
      → IsAccounted l
      → IsAccounted l'
  IsAccounted-same l l' q c p g s h = record {
    once = λ n. rw (q, c, p, g, s) (h.once n);
    clean = rw q h.clean;
    flight = rw (c, p) h.flight;
  }

  arm_grace-IsAccounted : (l : Lane O) → IsAccounted l → IsAccounted (arm_grace l)
  unfolding arm_grace
  arm_grace-IsAccounted l =
      IsAccounted-same l (arm_grace l) (ground arith) (ground arith) (ground arith) (ground arith)
        (ground arith)

  pump-IsAccounted : (l : Lane O) → IsAccounted l → IsAccounted (pump l)
  unfolding pump
  pump-IsAccounted l h = go l.phase refl
    where
      go : (ph : Phase O) → l.phase ≡ ph → IsAccounted (pump l)
      go idle e =
          rw (e, pump) (record { once = λ n. rw e at (h.once n); clean = h.clean; flight = tt })
      go woken e =
          IsAccounted-same l (pump l) (ground arith) (ground arith) (ground arith) (ground arith)
            (ground arith) h
      go (submitting b) e =
          IsAccounted-same l (pump l) (ground arith) (ground arith) (ground arith) (ground arith)
            (ground arith) h

  start_submit-IsAccounted :
      (lane lane' : Lane O) (batch : Option (Batch O))
      → Holds lane
      → Packed env lane lane' batch
      → IsAccounted (start_submit env lane' batch)
  unfolding start_submit
  start_submit-IsAccounted lane lane' none h k =
      arm_grace-IsAccounted (record lane' { phase = idle })
        (resting-IsAccounted lane' (
          λ n. rw (k.slot, k.serial) (omega (arith, h.0 n, k.conserved n, tally-nil O n)),
          k.clean,
        ))
  start_submit-IsAccounted lane lane' (some b) h k = record {
    once = λ n. rw (k.slot, k.serial) (omega (arith, h.0 n, k.conserved n));
    clean = k.clean;
    flight = rw k.slot k.agrees;
  }

  round-IsAccounted : (lane : Lane O) → Holds lane → IsAccounted (round env lane)
  round-IsAccounted lane h = go lane.queue refl
    where
      go : (queue : List (Entry O)) → lane.queue ≡ queue → IsAccounted (round env lane)
      go [] e = rw (round_nil env lane e) (resting-IsAccounted lane h)
      go (x ∷ xs) e = elim (Bool-cases (budget_spent env lane.current)) [
        | inl spent ↦
            rw (round_spent env lane x xs e spent)
              (arm_grace-IsAccounted (record lane { phase = idle }) (resting-IsAccounted lane h))
        | inr left ↦ rw (round_more env lane x xs e left) (
            start_submit-IsAccounted lane _ _ h (
              pack_batch-Packed env lane h.1
                (λ n. omega (arith, h.0 n, expected-le-one n lane.next_serial))))
      ]

  -- what the entries of a landed batch count, with the answers that the submit gave
  landed-Holds :
      (now extensions : ℕ) (lane : Lane O) (b : Batch O)
      → IsClean lane.queue
      → ((n : ℕ) → settled_or_held lane n + tally n b.fresh ≡ expected n lane.next_serial)
      → ((n : ℕ)
          → tally n (base_of lane.current) + tally n b.fresh
            ≡ tally n b.entries + tally n b.dropped)
      → Holds (landed env now extensions lane b)
  unfolding landed_log
  landed-Holds now extensions lane b clean once agree = (
    λ n. omega (
      arith,
      once n,
      agree n,
      deliveries-append n lane.log (resolve_entries b.dropped false ++ resolve_submitted b.fresh),
      deliveries-append n (resolve_entries b.dropped false) (resolve_submitted b.fresh),
      deliveries-resolve_entries n b.dropped false,
      deliveries-resolve_submitted n b.fresh,
    ),
    clean,
  )

  after_submit-IsAccounted :
      (now : ℕ) (lane : Lane O) (b : Batch O)
      → lane.phase ≡ submitting b
      → ¬ IsRaced lane
      → IsAccounted lane
      → IsAccounted (after_submit env now lane b)
  unfolding after_submit
  after_submit-IsAccounted now lane b flying safe h = go lane.current refl
    where
      once : (n : ℕ) → settled_or_held lane n + tally n b.fresh ≡ expected n lane.next_serial
      once n = rw flying at (h.once n)

      agrees : Agrees lane.current b
      agrees = rw flying at h.flight

      go :
          (slot : Option (Current O))
          → lane.current ≡ slot
          → IsAccounted (after_submit env now lane b)
      go none e = elim (Bool-cases b.extending) [
        | inl ext ↦ absurd (safe (b, flying, ext, e))
        | inr new ↦
            let same : after_submit env now lane b ≡ round env (landed env now 0 lane b) =
              ground arith in
            let fits = (rw e at agrees) new in
            rw same (
              round-IsAccounted (landed env now 0 lane b) (
                landed-Holds now 0 lane b h.clean once
                  (λ n. rw e (omega (arith, fits n, tally-nil O n)))))
      ]
      go (some c) e =
          let fits = rw e at agrees in
          let same : after_submit env now lane b
              ≡ round env (landed env now (suc c.extensions) lane b) =
            ground (arith, fits.0) in
          rw same (
            round-IsAccounted (landed env now (suc c.extensions) lane b)
              (landed-Holds now (suc c.extensions) lane b h.clean once (λ n. rw e (fits.1 n))))
