-- ===== src/Outbound/Sealed.antt =====
-- What `packBatch` encodes: its payload is that of all the entries of the batch.
use polkadot_chat_agents.Base.{
  ℕ, String, Bool, true, false, Option, none, some, List, [], ◌∷◌, ◌≡◌, refl, map, length, ltb,
  ◌==◌, if-cases,
}
use polkadot_chat_agents.Outbound.Lane.{Env, Entry, Batch, Lane}
use polkadot_chat_agents.Outbound.Pack.{
  Packing, same_flag, candidate, weigh, consider, pack_loop, batch_flag, to_batch, pack_batch,
}

module _ {O : Type 0} (env : Env O) where
  -- the payload, where there is one, is what `encodeBatch` makes of the entries
  abbrev Encodes : Bool → List (Entry O) → Option (String × List ℕ) → Type 0
  Encodes flag entries none = Unit
  Encodes flag entries (some (rid, payload)) =
      env.encode rid (map (λ e. e.opaque) entries) flag ≡ some payload

  abbrev Seals : Bool → Packing O → Type 0
  Seals flag p = Encodes flag p.entries p.sealed

  abbrev SealsFirst : Bool → Packing O × Bool → Type 0
  SealsFirst flag r = Seals flag r.0

  weigh-Seals :
      (flag : Bool) (base_length : ℕ) (p : Packing O) (next : Entry O) (encoded : Option (List ℕ))
      → env.encode (env.request_id p.calls) (map (λ e. e.opaque) (candidate env p next)) flag
        ≡ encoded
      → Seals flag p
      → SealsFirst flag (weigh env base_length p next encoded)
  unfolding weigh
  weigh-Seals flag base_length p next none e h = h
  weigh-Seals flag base_length p next (some encoded) e h =
      if-cases (SealsFirst flag) (ltb env.max_payload_bytes (length encoded)) _ _
        (λ _.
          if-cases (SealsFirst flag) (ltb base_length (length p.entries)) _ _ (λ _. h)
            (λ _.
              if-cases (SealsFirst flag) (length (candidate env p next) == 1) _ _ (λ _. h)
                (λ _. h)))
        (λ _. e)

  consider-Seals :
      (flag : Bool) (base_length : ℕ) (p : Packing O) (next : Entry O)
      → Seals flag p
      → SealsFirst flag (consider env flag base_length p next)
  unfolding consider
  consider-Seals flag base_length p next h =
      if-cases (SealsFirst flag) (same_flag next.force_identity flag) _ _
        (λ _. weigh-Seals flag base_length p next _ refl h) (λ _. h)

  -- the loop goes on or stops after a round
  more-Seals :
      (flag more : Bool) (stop go_on : Packing O × List (Entry O))
      → Seals flag stop.0
      → Seals flag go_on.0
      → Seals flag
          (elim more as (λ _. Packing O × List (Entry O)) [ true ↦ go_on | false ↦ stop ]).0
  more-Seals flag true stop go_on h k = k
  more-Seals flag false stop go_on h k = h

  pack_loop-Seals :
      (flag : Bool) (base_length : ℕ) (queue : List (Entry O)) (p : Packing O)
      → Seals flag p
      → Seals flag (pack_loop env flag base_length queue p).0
  unfolding pack_loop
  pack_loop-Seals flag base_length [] p h = h
  pack_loop-Seals flag base_length (next ∷ rest) p h =
      let step = consider-Seals flag base_length p next h in
      more-Seals flag (consider env flag base_length p next).1
        ((consider env flag base_length p next).0, next ∷ rest)
        (pack_loop env flag base_length rest (consider env flag base_length p next).0) step
        (pack_loop-Seals flag base_length rest (consider env flag base_length p next).0 step)

  -- The payload of the batch is the encoding of all its entries, under its request id and flag.
  abbrev pub IsEncoded : Batch O → Type 0
  IsEncoded b = env.encode b.request_id (map (λ e. e.opaque) b.entries) b.flag ≡ some b.payload

  abbrev pub EncodedIfSome : Option (Batch O) → Type 0
  EncodedIfSome none = Unit
  EncodedIfSome (some b) = IsEncoded b

  to_batch-encoded :
      (flag extending : Bool) (base : List (Entry O)) (p : Packing O)
      (sealed : Option (String × List ℕ))
      → Encodes flag p.entries sealed
      → EncodedIfSome (to_batch env flag extending base p sealed)
  unfolding to_batch
  to_batch-encoded flag extending base p none h = tt
  to_batch-encoded flag extending base p (some (rid, payload)) h = h

  pub pack_batch-encoded :
      (extending : Bool) (base : List (Entry O)) (lane : Lane O)
      → EncodedIfSome (pack_batch env extending base lane).1
  unfolding pack_batch
  pack_batch-encoded extending base lane =
      let flag = batch_flag env base lane.queue in
      let p =
        (pack_loop env flag (length base) lane.queue
          (record { entries = base; sealed = none; calls = lane.calls; log = lane.log })).0 in
      to_batch-encoded flag extending base p p.sealed (
        pack_loop-Seals flag (length base) lane.queue
          (record { entries = base; sealed = none; calls = lane.calls; log = lane.log }) tt)
