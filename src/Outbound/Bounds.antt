-- ===== src/Outbound/Bounds.antt =====
-- The bounds of a lane: the backlog, the size of what is submitted, the number of extensions, and
-- one encryption flag for all entries of a statement. Here: the predicates, and `packBatch`.
pub mod Steps
use polkadot_chat_agents.Base.{
  ℕ, ◌≤◌, ◌<◌, String, Bool, true, false, Option, none, some, List, [], ◌∷◌, ◌≡◌, refl, sym, subst,
  arith, ltb, ◌==◌, length, keep_if, All, All-append, Bool-cases, inl, inr, not_ltb→le,
}
use polkadot_chat_agents.Outbound.Lane.{
  Env, Entry, Current, Batch, Lane, Phase, idle, woken, submitting,
}
use polkadot_chat_agents.Outbound.Pump.{
  pump, arm_grace, base_of, is_extending, finish, budget_spent, start_submit, round,
}
use polkadot_chat_agents.Outbound.Pack.{
  Packing, same_flag, candidate, weigh, consider, pack_loop, batch_flag, to_batch, pack_batch,
}

abbrev pub HasFlag : {O : Type 0} → Bool → Entry O → Type 0
HasFlag flag e = e.force_identity ≡ flag

module _ {O : Type 0} (env : Env O) where
  abbrev pub FitsPayload : Option (String × List ℕ) → Type 0
  FitsPayload none = Unit
  FitsPayload (some (rid, payload)) = length payload ≤ env.max_payload_bytes

  -- the statement in the slot: its extensions are within the budget, its entries share its flag
  abbrev pub FitsSlot : Option (Current O) → Type 0
  FitsSlot none = Unit
  FitsSlot (some c) = (c.extensions ≤ env.max_extensions) × All (HasFlag c.force_identity) c.entries

  -- an extension in flight still has budget
  abbrev pub HasBudget : Bool → Option (Current O) → Type 0
  HasBudget true (some c) = c.extensions < env.max_extensions
  HasBudget _ _ = Unit

  abbrev pub FitsPhase : Option (Current O) → Phase O → Type 0
  FitsPhase slot (submitting b) =
      (length b.payload ≤ env.max_payload_bytes)
      × All (HasFlag b.flag) b.entries
      × HasBudget b.extending slot
  FitsPhase slot _ = Unit

  pub record IsBounded (lane : Lane O) : Type 0 where
    pub backlog : length lane.queue ≤ env.max_queued
    pub slot : FitsSlot lane.current
    pub flight : FitsPhase lane.current lane.phase

  same_flag-eq : (a b : Bool) → same_flag a b ≡ true → a ≡ b
  same_flag-eq true b h = sym h
  same_flag-eq false true h = cc
  same_flag-eq false false h = refl

All-keep_if {ℓ κ} :
    {A : Type ℓ} (P : A → Type κ) (p : A → Bool) (xs : List A) → All P xs → All P (keep_if p xs)
All-keep_if P p [] h = tt
All-keep_if P p (x ∷ xs) h = elim (Bool-cases (p x)) [
  | inl e ↦ rw e (h.0, All-keep_if P p xs h.1)
  | inr e ↦ rw e (All-keep_if P p xs h.1)
]

module _ {O : Type 0} (env : Env O) where
  -- what the packing loop keeps
  abbrev Packs : Bool → Packing O → Type 0
  Packs flag p = FitsPayload env p.sealed × All (HasFlag flag) p.entries

  candidate-HasFlag :
      (flag : Bool) (p : Packing O) (next : Entry O)
      → All (HasFlag flag) p.entries
      → HasFlag flag next
      → All (HasFlag flag) (candidate env p next)
  unfolding candidate
  candidate-HasFlag flag p next h e =
      All-append (HasFlag flag) (keep_if _ p.entries) (next ∷ [])
        (All-keep_if (HasFlag flag) _ p.entries h) (e, tt)

  weigh-Packs :
      (flag : Bool) (base_length : ℕ) (p : Packing O) (next : Entry O) (r : Option (List ℕ))
      → HasFlag flag next
      → Packs flag p
      → Packs flag (weigh env base_length p next r).0
  unfolding weigh
  weigh-Packs flag base_length p next none e h = h
  weigh-Packs flag base_length p next (some encoded) e h =
      elim (Bool-cases (ltb env.max_payload_bytes (length encoded))) [
        | inr small ↦ rw small (
          not_ltb→le env.max_payload_bytes (length encoded) small,
          candidate-HasFlag flag p next h.1 e,
        )
        | inl big ↦ rw big (elim (Bool-cases (ltb base_length (length p.entries))) [
          | inl more ↦ rw more h
          | inr few ↦ rw few (elim (Bool-cases (length (candidate env p next) == 1)) [
            | inl one ↦ rw one h
            | inr many ↦ rw many h
          ])
        ])
      ]

  consider-Packs :
      (flag : Bool) (base_length : ℕ) (p : Packing O) (next : Entry O)
      → Packs flag p
      → Packs flag (consider env flag base_length p next).0
  unfolding consider
  consider-Packs flag base_length p next h =
      elim (Bool-cases (same_flag next.force_identity flag)) [
        | inl e ↦
            rw e (
              weigh-Packs flag base_length p next _ (same_flag-eq env next.force_identity flag e) h)
        | inr e ↦ rw e h
      ]

  pack_loop-Packs :
      (flag : Bool) (base_length : ℕ) (queue : List (Entry O)) (p : Packing O)
      → Packs flag p
      → Packs flag (pack_loop env flag base_length queue p).0
        × (length (pack_loop env flag base_length queue p).1 ≤ length queue)
  unfolding pack_loop
  pack_loop-Packs flag base_length [] p h = (h, omega arith)
  pack_loop-Packs flag base_length (next ∷ rest) p h =
      elim (Bool-cases (consider env flag base_length p next).1) [
        | inl e ↦
            let ih =
              pack_loop-Packs flag base_length rest (consider env flag base_length p next).0
                (consider-Packs flag base_length p next h) in
            rw (e, pack_loop) (ih.0, omega (arith, ih.1))
        | inr e ↦ rw (e, pack_loop) (consider-Packs flag base_length p next h, omega arith)
      ]

  batch_flag_lem :
      (flag : Bool) (base queue : List (Entry O))
      → All (HasFlag flag) base
      → All (HasFlag (batch_flag env base queue)) base
  unfolding batch_flag
  batch_flag_lem flag [] queue h = tt
  batch_flag_lem flag (e ∷ base) queue h = (refl, subst (λ f. All (HasFlag f) base) (sym h.0) h.1)

  -- what `packBatch` returns fits
  abbrev FitsBatch : Bool → Option (Batch O) → Type 0
  FitsBatch extending none = Unit
  FitsBatch extending (some b) =
      (length b.payload ≤ env.max_payload_bytes)
      × All (HasFlag b.flag) b.entries
      × (b.extending ≡ extending)

  to_batch-Fits :
      (flag extending : Bool) (base : List (Entry O)) (p : Packing O)
      (sealed : Option (String × List ℕ))
      → FitsPayload env sealed
      → All (HasFlag flag) p.entries
      → FitsBatch extending (to_batch env flag extending base p sealed)
  unfolding to_batch
  to_batch-Fits flag extending base p none h a = tt
  to_batch-Fits flag extending base p (some (rid, payload)) h a = (h, a, refl)

  pack_batch-Fits :
      (flag extending : Bool) (base : List (Entry O)) (lane : Lane O)
      → All (HasFlag flag) base
      → FitsBatch extending (pack_batch env extending base lane).1
        × (length (pack_batch env extending base lane).0.queue ≤ length lane.queue)
  unfolding pack_batch
  pack_batch-Fits flag extending base lane h =
      let f = batch_flag env base lane.queue in
      let start : Packing O = record {
        entries = base;
        sealed = none;
        calls = lane.calls;
        log = lane.log;
      } in
      let r =
        pack_loop-Packs f (length base) lane.queue start
          (tt, batch_flag_lem flag base lane.queue h) in
      (
        to_batch-Fits f extending base (pack_loop env f (length base) lane.queue start).0
            (pack_loop env f (length base) lane.queue start).0.sealed r.0.0 r.0.1,
        r.1,
      )
