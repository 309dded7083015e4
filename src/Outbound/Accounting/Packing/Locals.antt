-- ===== src/Outbound/Accounting/Packing/Locals.antt =====
-- The batch that `packBatch` returns, and the two filters after it, in counts.
use polkadot_chat_agents.Outbound.Accounting.Packing.{
  spared, spared-nil, IsClean-tail, Splits, pack_loop-Splits,
}
use polkadot_chat_agents.Base.{
  ◌++◌, ap, ◌∙◌, ℕ, ◌+◌, ◌≤◌, String, Bool, not, Option, none, some, List, [], ◌≡◌, refl, sym,
  arith, length, keep_if, append-nil,
}
use polkadot_chat_agents.Outbound.Lane.{Current, Env, Entry, Batch, Lane}
use polkadot_chat_agents.Outbound.Pack.{
  Packing, pack_loop, batch_flag, to_batch, pack_batch, includes,
}
use polkadot_chat_agents.Outbound.Pump.{base_of, is_extending}
use polkadot_chat_agents.Outbound.Accounting.{
  tally-nil, Agrees, tally, deliveries, IsClean, tally-append, tally-keep_if-includes,
}

module _ {O : Type 0} (env : Env O) where
  -- the new entries of an optional batch
  abbrev pub fresh_of : Option (Batch O) → List (Entry O)
  fresh_of none = []
  fresh_of (some b) = b.fresh

  abbrev pub AgreesIfSome : Option (Current O) → Option (Batch O) → Type 0
  AgreesIfSome slot none = Unit
  AgreesIfSome slot (some b) = Agrees slot b

  -- the counts that a batch is made from, when every entry of the queue and of the base is there
  -- at most once
  module _ (slot : Option (Current O)) (mass : ℕ → ℕ) (rest : List (Entry O)) (p : Packing O) where
    module _ (h : Splits env (base_of slot) mass rest p)
        (once : (n : ℕ) → mass n + tally n (base_of slot) ≤ 1) (n : ℕ) where
      tally-entries : tally n p.entries ≡ tally n h.kept + tally n h.taken
      tally-entries = rw h.split (tally-append n h.kept h.taken)

      tally-fresh :
          tally n (keep_if (λ e. not (includes env (base_of slot) e)) p.entries) ≡ tally n h.taken
      tally-fresh =
          let w = h.within n in
          let c = h.conserved n in
          let o = once n in
          let t = tally-entries in
          rw (tally-keep_if-includes env n (base_of slot) p.entries) (ground arith)

      tally-dropped :
          tally n (base_of slot) + tally n h.taken
          ≡ tally n p.entries
            + tally n (keep_if (λ e. not (includes env p.entries e)) (base_of slot))
      tally-dropped =
          let w = h.within n in
          let c = h.conserved n in
          let o = once n in
          let t = tally-entries in
          rw (tally-keep_if-includes env n p.entries (base_of slot)) (ground arith)

  sealed-Agrees :
      (slot : Option (Current O)) (mass : ℕ → ℕ) (rest : List (Entry O)) (p : Packing O)
      (flag : Bool) (sealed : Option (String × List ℕ))
      → Splits env (base_of slot) mass rest p
      → ((n : ℕ) → mass n + tally n (base_of slot) ≤ 1)
      → AgreesIfSome slot (to_batch env flag (is_extending slot) (base_of slot) p sealed)
  unfolding to_batch
  sealed-Agrees slot mass rest p flag none h once = tt
  sealed-Agrees none mass rest p flag (some (rid, payload)) h once = λ _ n.
      (ground (arith, tally-nil O n, tally-keep_if-includes env n [] p.entries), tally-nil O n)
  sealed-Agrees (some c) mass rest p flag (some (rid, payload)) h once = (
    refl,
    λ n. omega (
      arith,
      tally-fresh (some c) mass rest p h once n,
      tally-dropped (some c) mass rest p h once n,
    ),
  )

  sealed-fresh :
      (slot : Option (Current O)) (mass : ℕ → ℕ) (rest : List (Entry O)) (p : Packing O)
      (flag : Bool) (sealed : Option (String × List ℕ))
      → p.sealed ≡ sealed
      → (h : Splits env (base_of slot) mass rest p)
      → ((n : ℕ) → mass n + tally n (base_of slot) ≤ 1)
      → (n : ℕ)
      → tally n (fresh_of (to_batch env flag (is_extending slot) (base_of slot) p sealed))
        ≡ tally n h.taken
  unfolding to_batch
  sealed-fresh slot mass rest p flag none e h once n = rw (h.unsealed e) refl
  sealed-fresh slot mass rest p flag (some (rid, payload)) e h once n =
      tally-fresh slot mass rest p h once n

  -- The batch holds all of the base but what its new entries supersede, and then those.
  abbrev pub LosslessIfSome : Option (Current O) → Option (Batch O) → Type 0
  LosslessIfSome slot none = Unit
  LosslessIfSome slot (some b) =
      (taken : List (Entry O)) × (b.entries ≡ spared taken (base_of slot) ++ taken)
      × ((n : ℕ) → tally n taken ≡ tally n b.fresh)

  sealed-lossless :
      (slot : Option (Current O)) (mass : ℕ → ℕ) (rest : List (Entry O)) (p : Packing O)
      (flag : Bool) (sealed : Option (String × List ℕ))
      → Splits env (base_of slot) mass rest p
      → ((n : ℕ) → mass n + tally n (base_of slot) ≤ 1)
      → LosslessIfSome slot (to_batch env flag (is_extending slot) (base_of slot) p sealed)
  unfolding to_batch
  sealed-lossless slot mass rest p flag none h once = tt
  sealed-lossless slot mass rest p flag (some (rid, payload)) h once = (
    h.taken,
    h.split ∙ ap (λ k. k ++ h.taken) h.lossless,
    λ n. sym (tally-fresh slot mass rest p h once n),
  )

  -- What `packBatch` leaves of a lane with nothing in flight: every entry of the queue is still
  -- there, or new in the batch, or refused, and the batch agrees with the slot.
  pub record Packed (lane lane' : Lane O) (batch : Option (Batch O)) : Type 0 where
    pub clean : IsClean lane'.queue
    pub slot : lane'.current ≡ lane.current
    pub serial : lane'.next_serial ≡ lane.next_serial
    pub agrees : AgreesIfSome lane.current batch
    pub lossless : LosslessIfSome lane.current batch
    pub conserved :
        (n : ℕ)
        → tally n lane'.queue + tally n (fresh_of batch) + deliveries n lane'.log
          ≡ tally n lane.queue + deliveries n lane.log

  pub pack_batch-Packed :
      (lane : Lane O)
      → IsClean lane.queue
      → ((n : ℕ) → tally n lane.queue + deliveries n lane.log + tally n (base_of lane.current) ≤ 1)
      → Packed lane
          (pack_batch env (is_extending lane.current) (base_of lane.current) lane).0
          (pack_batch env (is_extending lane.current) (base_of lane.current) lane).1
  unfolding pack_batch
  pack_batch-Packed lane clean once =
      let flag = batch_flag env (base_of lane.current) lane.queue in
      let start : Packing O = record {
        entries = base_of lane.current;
        sealed = none;
        calls = lane.calls;
        log = lane.log;
      } in
      let mass : ℕ → ℕ = λ n. tally n lane.queue + deliveries n lane.log in
      let h0 : Splits env (base_of lane.current) mass lane.queue start = record {
        kept = base_of lane.current;
        taken = [];
        split = sym (append-nil (base_of lane.current));
        lossless = spared-nil (base_of lane.current);
        within = λ n. omega arith;
        conserved = λ n. unfold tally in omega arith;
        clean = clean;
        unsealed = λ _. refl;
      } in
      let h =
        pack_loop-Splits env (base_of lane.current) mass flag (length (base_of lane.current))
          lane.queue start h0 in
      let p = (pack_loop env flag (length (base_of lane.current)) lane.queue start).0 in
      let rest = (pack_loop env flag (length (base_of lane.current)) lane.queue start).1 in
      record {
        clean = IsClean-tail h.taken rest h.clean;
        slot = refl;
        serial = refl;
        lossless = sealed-lossless lane.current mass rest p flag p.sealed h once;
        agrees = sealed-Agrees lane.current mass rest p flag p.sealed h once;
        conserved = λ n. omega (
          arith,
          sealed-fresh lane.current mass rest p flag p.sealed refl h once n,
          h.conserved n,
        );
      }
